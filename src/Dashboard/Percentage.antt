-- ===== src/Dashboard/Percentage.antt =====
-- `percentChange` of dashboard/application/queries/get-metrics, on numbers of events below 2 ^ 53.
use multi_tenant_saa_s_platf.Base.{
  ℕ, zero, suc, ◌+◌, ◌-◌, ◌*◌, ◌/◌, max, ℤ, pos, negsuc, true, false, leb,
}
use multi_tenant_saa_s_platf.Base.Doubles.{Double, to_double, times}

-- `-n`
abbrev pub negated : ℕ → ℤ
negated zero = pos 0
negated (suc n) = negsuc n

-- `Math.round(x)` and `-Math.round(-x)` of a size, halves up
unfoldable pub rounded_up : Double → ℕ
rounded_up x = (2 * x.above + x.below) / (2 * x.below)

unfoldable pub rounded_down : Double → ℕ
rounded_down x = (2 * x.above + x.below - 1) / (2 * x.below)

-- The integer `Math.round(raw * 10)`: the percentage is the double next to a tenth of it.
unfoldable pub percent_change : ℕ → ℕ → ℤ
unfolding to_double times rounded_up rounded_down
percent_change current previous =
    let denominator = max previous 1 in
    elim (leb previous current) [
      | true ↦ pos (rounded_up (times 10 (times 100 (to_double (current - previous) denominator))))
      | false ↦
          negated (rounded_down (times 10 (times 100 (to_double (previous - current) denominator))))
    ]
