-- ===== src/Dashboard/Calendar/Days.antt =====
-- The texts that `formatDay` of get-event-series.handler.ts makes of days.
use multi_tenant_saa_s_platf.Base.{
  ℕ, zero, suc, ◌+◌, ◌-◌, ◌*◌, ◌/◌, ◌%◌, ◌≡◌, ◌↔◌, refl, sym, ap, ◌∙◌, Option, none, some, get_or,
  [], ◌∷◌, ◌++◌, Text, arith, decimal, digits, length, ltb, Bool-cases, inl, inr,
}
use multi_tenant_saa_s_platf.Events.Message.{scan_digits}
use multi_tenant_saa_s_platf.Events.Message.Decimals.{scan_digits-digits, decimal-digits}
use multi_tenant_saa_s_platf.Dashboard.Calendar.{
  UtcCalendar, day_ms, zeros, pad_start, format_day, start_of_utc_day,
}

digits-append : (fuel n : ℕ) (s rest : Text) → digits fuel n s ++ rest ≡ digits fuel n (s ++ rest)
unfolding digits
digits-append zero n s rest = refl
digits-append (suc fuel) n s rest = elim (Bool-cases (ltb n 10)) [
  | inl one ↦ ground arith
  | inr more ↦ ground (arith, digits-append fuel (n / 10) ((48 + n % 10) ∷ s) rest)
]

zeros-append : (k : ℕ) (s rest : Text) → zeros k s ++ rest ≡ zeros k (s ++ rest)
zeros-append zero s rest = refl
zeros-append (suc k) s rest = ap (λ t. b'0' ∷ t) (zeros-append k s rest)

-- A padded number, and what follows it.
abbrev padded : ℕ → ℕ → Text → Text
padded width n rest = pad_start width (decimal n) ++ rest

scan_zeros :
    (k n : ℕ) (before : Option ℕ) (rest : Text)
    → get_or before 0 ≡ 0
    → scan_digits (zeros k (digits (suc n) n rest)) before ≡ scan_digits rest (some n)
unfolding scan_digits
scan_zeros zero n before rest z = scan_digits-digits (suc n) n before rest (omega arith) z
scan_zeros (suc k) n before rest z =
    scan_zeros k n (some (10 * get_or before 0 + 0)) rest (ground arith)

scan_padded :
    (width n : ℕ) (rest : Text) → scan_digits (padded width n rest) none ≡ scan_digits rest (some n)
unfolding pad_start
scan_padded width n rest =
    rw
      (
        zeros-append (width - length (decimal n)) (decimal n) rest,
        decimal-digits n,
        digits-append (suc n) n [] rest,
      )
      (scan_zeros _ n none rest refl)

append-cancel : (p s t : Text) → p ++ s ≡ p ++ t → s ≡ t
append-cancel [] s t h = h
append-cancel (c ∷ p) s t h = append-cancel p s t (cc)

-- Two padded numbers before the same kind of end are equal, and so is what follows.
padded_dash :
    (width n n' : ℕ) (rest rest' : Text)
    → padded width n (b'-' ∷ rest) ≡ padded width n' (b'-' ∷ rest')
    → (n ≡ n') × (rest ≡ rest')
unfolding scan_digits
padded_dash width n n' rest rest' h =
    let first : ◌≡◌ {A = Option ℕ} (some n) (some n') =
      sym (scan_padded width n (b'-' ∷ rest))
      ∙ ap (λ t. scan_digits t none) h
      ∙ scan_padded width n' (b'-' ∷ rest') in
    let same : n ≡ n' = cc in
    let tails =
      append-cancel (pad_start width (decimal n)) (b'-' ∷ rest) (b'-' ∷ rest')
        (h ∙ ap (λ k. padded width k (b'-' ∷ rest')) (sym same)) in
    (same, cc)

padded_end : (width n n' : ℕ) → padded width n [] ≡ padded width n' [] → n ≡ n'
unfolding scan_digits
padded_end width n n' h =
    let first : ◌≡◌ {A = Option ℕ} (some n) (some n') =
      sym (scan_padded width n []) ∙ ap (λ t. scan_digits t none) h ∙ scan_padded width n' [] in
    cc

append-nil : (s : Text) → s ++ [] ≡ s
append-nil [] = refl
append-nil (c ∷ s) = ap (λ t. c ∷ t) (append-nil s)

module _ (calendar : UtcCalendar) where
  pub start_of_utc_day_lem : (t : ℕ) → start_of_utc_day calendar t ≡ (t / day_ms) * day_ms
  unfolding start_of_utc_day
  start_of_utc_day_lem t = calendar.utc_start t

  -- Two instants have the same text exactly when they are of the same day.
  pub format_day_iff :
      (t t' : ℕ) → (format_day calendar t ≡ format_day calendar t') ↔ (t / day_ms ≡ t' / day_ms)
  unfolding format_day
  format_day_iff t t' = (
    λ h.
        let (years, r1) = padded_dash 4 (calendar.year t) (calendar.year t') _ _ h in
        let (months, r2) = padded_dash 2 (calendar.month t + 1) (calendar.month t' + 1) _ _ r1 in
        let dates =
          padded_end 2 (calendar.date t) (calendar.date t')
            (append-nil _ ∙ r2 ∙ sym (append-nil _)) in
        let same_month : calendar.month t ≡ calendar.month t' = omega arith in
        let starts : (t / day_ms) * day_ms ≡ (t' / day_ms) * day_ms =
          sym (calendar.utc_start t)
          ∙ (λ i. calendar.utc (years i) (same_month i) (dates i))
          ∙ calendar.utc_start t' in
        omega arith,
    λ same. (λ i.
        pad_start 4 (decimal (calendar.same_year t t' same i))
        ++ (b'-' ∷ pad_start 2 (decimal (calendar.same_month t t' same i + 1))
            ++ (b'-' ∷ pad_start 2 (decimal (calendar.same_date t t' same i))))),
  )
