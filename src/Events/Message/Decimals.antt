-- ===== src/Events/Message/Decimals.antt =====
-- `parseInt` on what `String` writes of a number.
use multi_tenant_saa_s_platf.Base.{
  ℕ, zero, suc, ◌+◌, ◌/◌, ◌%◌, ◌≡◌, ◌≤◌, ◌<◌, refl, inl, inr, Option, get_or, none, some, [], ◌∷◌,
  Text, arith, digits, decimal, trim_start, Bool-cases, ltb,
}
use multi_tenant_saa_s_platf.Events.Message.{scan_digits, parse_int}

-- The fuel is enough when it is more than the number; what is read before it is worth nothing.
pub scan_digits-digits :
    (fuel n : ℕ) (before : Option ℕ) (rest : Text)
    → n < fuel
    → get_or before 0 ≡ 0
    → scan_digits (digits fuel n rest) before ≡ scan_digits rest (some n)
unfolding digits scan_digits
scan_digits-digits zero n before rest h z = ground arith
scan_digits-digits (suc fuel) n before rest h z = elim (Bool-cases (ltb n 10)) [
  | inl one ↦ ground arith
  | inr more ↦
      let rec = scan_digits-digits fuel (n / 10) before ((48 + n % 10) ∷ rest) (ground arith) z in
      ground arith
]

-- A number begins with a digit.
digits_head :
    (fuel n : ℕ) (rest : Text)
    → n < fuel
    → (c : ℕ) × (s : Text) × (digits fuel n rest ≡ c ∷ s) × (48 ≤ c) × (c ≤ 57)
unfolding digits
digits_head zero n rest h = absurd (omega arith)
digits_head (suc fuel) n rest h = elim (Bool-cases (ltb n 10)) [
  | inl one ↦ (48 + n, rest, ground arith, ground arith, ground arith)
  | inr more ↦
      let (c, s, e, lo, hi) = digits_head fuel (n / 10) ((48 + n % 10) ∷ rest) (ground arith) in
      (c, s, ground arith, lo, hi)
]

parse_int_digit :
    (c n : ℕ) (s : Text)
    → 48 ≤ c
    → c ≤ 57
    → scan_digits (c ∷ s) none ≡ some n
    → parse_int (c ∷ s) ≡ some n
unfolding parse_int trim_start
parse_int_digit c n s lo hi h = ground arith

pub decimal-digits : (n : ℕ) → decimal n ≡ digits (suc n) n []
unfolding decimal
decimal-digits n = refl

scan_all : (n : ℕ) → scan_digits (digits (suc n) n []) none ≡ some n
unfolding scan_digits
scan_all n = scan_digits-digits (suc n) n none [] (omega arith) refl

pub parse_int-decimal : (n : ℕ) → parse_int (decimal n) ≡ some n
parse_int-decimal n =
    let (c, s, e, lo, hi) = digits_head (suc n) n [] (omega arith) in
    let whole = scan_all n in rw (decimal-digits n, e) (parse_int_digit c n s lo hi (rw e at whole))
