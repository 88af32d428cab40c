-- ===== src/Base/Doubles.antt =====
-- JavaScript's numbers, as far as percentages need them: the size of a double is a quotient, and each
-- operation rounds its exact result to 53 binary digits, ties to the even one. The size of a
-- result is none of a subnormal or an infinite number.
use Prim.Native.Nat.{ℕ, zero, suc, ◌+◌, ◌*◌, ◌/◌, ◌%◌, ◌≤◌, ◌<◌}
use mathlib.Core.Logic.{inl, inr}
use mathlib.Core.Bool.{true, false}
use native.Mathlib.Omega.{arith}
use multi_tenant_saa_s_platf.Base.Tests.{leb, ltb, Bool-cases}

-- The size of a double: `above / below`
pub record Double : Type 0 where
  pub above : ℕ
  pub below : ℕ

-- The first of `up`, `2 * up`, ... by which `n / d` has at least 53 binary digits before the point.
unfoldable pub grown : ℕ → ℕ → ℕ → ℕ → ℕ
grown zero n d up = up
grown (suc fuel) n d up = elim (leb (4503599627370496 * d) (n * up)) [
  | true ↦ up
  | false ↦ grown fuel n d (2 * up)
]

-- The first of `down`, `2 * down`, ... by which `n / d` has at most 53.
unfoldable pub shrunk : ℕ → ℕ → ℕ → ℕ → ℕ
shrunk zero n d down = down
shrunk (suc fuel) n d down = elim (ltb n (9007199254740992 * (d * down))) [
  | true ↦ down
  | false ↦ shrunk fuel n d (2 * down)
]

-- The integer next to `n / d`, the even one of two
unfoldable pub half_even : ℕ → ℕ → ℕ
half_even n d =
    let q = n / d in
    let twice = 2 * (n % d) in
    elim (ltb twice d) [
      | true ↦ q
      | false ↦ elim (ltb d twice) [ true ↦ q + 1 | false ↦ q + q % 2 ]
    ]

abbrev pub digits_fuel : ℕ
digits_fuel = 200

-- The double next to `n / d`
unfoldable pub to_double : ℕ → ℕ → Double
unfolding grown shrunk half_even
to_double zero d = record { above = 0; below = 1 }
to_double (suc n) d =
    let up = grown digits_fuel (suc n) d 1 in
    let down = shrunk digits_fuel (suc n) d 1 in
    record { above = half_even (suc n * up) (d * down) * down; below = up }

-- `x * k`
unfoldable pub times : ℕ → Double → Double
unfolding to_double
times k x = to_double (k * x.above) x.below

-- `up` after so many doublings
abbrev doubled : ℕ → ℕ → ℕ
doubled zero up = up
doubled (suc k) up = doubled k (2 * up)

-- As many doublings as the fuel allows are enough where they are enough at all.
grown_enough :
    (fuel n d up : ℕ)
    → 4503599627370496 * d ≤ n * doubled fuel up
    → 4503599627370496 * d ≤ n * grown fuel n d up
unfolding grown
grown_enough zero n d up h = h
grown_enough (suc fuel) n d up h = elim (Bool-cases (leb (4503599627370496 * d) (n * up))) [
  | inl reached ↦ ground arith
  | inr short ↦ let rest = grown_enough fuel n d (2 * up) h in ground arith
]

shrunk_enough :
    (fuel n d down : ℕ)
    → n < 9007199254740992 * (d * doubled fuel down)
    → n < 9007199254740992 * (d * shrunk fuel n d down)
unfolding shrunk
shrunk_enough zero n d down h = h
shrunk_enough (suc fuel) n d down h = elim (Bool-cases (ltb n (9007199254740992 * (d * down)))) [
  | inl reached ↦ ground arith
  | inr over ↦ let rest = shrunk_enough fuel n d (2 * down) h in ground arith
]

-- The fuel brings every quotient of a number up to 2 ^ 200 by one up to 2 ^ 148 to 53 binary digits before
-- the point.
pub digits_fuel_enough :
    (n d : ℕ)
    → 0 < n
    → d ≤ 356811923176489970264571492362373784095686656
    → n ≤ 1606938044258990275541962092341162602522202993782792835301376
    → 0 < d
    → (4503599627370496 * d ≤ n * grown digits_fuel n d 1)
      × (n < 9007199254740992 * (d * shrunk digits_fuel n d 1))
digits_fuel_enough n d some_n small_d small_n some_d =
    (grown_enough 200 n d 1 (omega arith), shrunk_enough 200 n d 1 (omega arith))
