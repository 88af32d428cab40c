-- ===== src/Bootstrap/Slugify/Shape.antt =====
-- The shape of what `slugify` of scripts/bootstrap-platform-admin.ts gives.
use mathlib.Core.Path.{subst}
use multi_tenant_saa_s_platf.Base.{
  ℕ, ◌+◌, ◌≡◌, ◌≢◌, ◌↔◌, ◌≤◌, ◌<◌, refl, inl, inr, Bool, true, false, not, ◌==◌, none, [], ◌∷◌,
  ◌++◌, Text, codes, arith, All, Bool-cases, is_empty, nil_of_empty, length, length-take, take, ltb,
  CaseMapping,
}
use multi_tenant_saa_s_platf.TenantCore.Slug.{is_alnum, is_slug_unit}
use multi_tenant_saa_s_platf.TenantCore.Slug.Shape.{IsSlug}
use multi_tenant_saa_s_platf.Bootstrap.Slugify.{
  hyphenate, strip_start, strip_end, strip_marks, slug_base, fit_length, slugify,
}
use multi_tenant_saa_s_platf.Bootstrap.Slugify.Runs.{
  is_clean, ends_well, hyphenate-is_clean, strip_start-is_clean, strip_end-is_clean,
  strip_end-ends_well, length-strip_end, length-strip_end_le, take-is_clean,
}

-- A clean text with a good end, cut before its last unit.
last_unit :
    (b e : Bool) (c : ℕ) (s : Text)
    → is_clean b (c ∷ s) ≡ true
    → ends_well e (c ∷ s) ≡ true
    → (u : Text) × (d : ℕ) × (◌≡◌ {A = Text} (c ∷ s) (u ++ d ∷ []))
      × (length (c ∷ s) ≡ length u + 1)
      × All (λ x. is_slug_unit x ≡ true) u
      × (is_alnum d ≡ true)
unfolding is_clean ends_well
last_unit b e c [] h k = ([], c, refl, refl, tt, ground arith)
last_unit b e c (x ∷ s) h k = elim (Bool-cases (is_alnum c)) [
  | inl plain ↦
      let (u, d, same, size, units, last) =
        last_unit false (not (c == b'-')) x s (ground arith) k in
      (c ∷ u, d, cc, omega arith, (ground arith, units), last)
  | inr other ↦
      let (u, d, same, size, units, last) = last_unit true (not (c == b'-')) x s (ground arith) k in
      (c ∷ u, d, cc, omega arith, (ground arith, units), last)
]

-- A clean text that neither begins nor ends with a hyphen is a slug if its length is one's.
clean-IsSlug :
    (s : Text)
    → is_clean true s ≡ true
    → ends_well true s ≡ true
    → 3 ≤ length s
    → length s ≤ 63
    → IsSlug s
unfolding is_clean ends_well
clean-IsSlug [] h k lo hi = absurd (omega arith)
clean-IsSlug (c ∷ []) h k lo hi = absurd (omega arith)
clean-IsSlug (c ∷ x ∷ s) h k lo hi =
    let first : is_alnum c ≡ true = ground arith in
    let (u, d, same, size, units, last) = last_unit false (not (c == b'-')) x s (ground arith) k in
    (c, u, d, cc, first, omega arith, omega arith, units, last)

-- One or two units become a slug by the suffix.
short-IsSlug :
    (s : Text) → is_clean true s ≡ true → s ≢ [] → length s < 3 → IsSlug (s ++ codes "-org")
unfolding is_clean codes
short-IsSlug [] h n lt = absurd (n refl)
short-IsSlug (c ∷ []) h n lt = (
  c,
  b'-' ∷ b'o' ∷ b'r' ∷ [],
  b'g',
  refl,
  ground arith,
  omega arith,
  omega arith,
  (refl, (refl, (refl, tt))),
  refl,
)
short-IsSlug (c ∷ d ∷ []) h n lt = (
  c,
  d ∷ b'-' ∷ b'o' ∷ b'r' ∷ [],
  b'g',
  refl,
  ground arith,
  omega arith,
  omega arith,
  (ground arith, (refl, (refl, (refl, tt)))),
  refl,
)
short-IsSlug (c ∷ d ∷ e ∷ s) h n lt = absurd (omega arith)

not_empty : (s : Text) → 0 < length s → is_empty s ≡ false
not_empty [] h = absurd (omega arith)
not_empty (c ∷ s) h = refl

-- A text of more than 63 units stays clean and long enough when it is cut.
long-IsSlug : (s : Text) → is_clean true s ≡ true → 63 < length s → IsSlug (strip_end (take 63 s))
long-IsSlug s h lt =
    let cut = take-is_clean true 63 s h in
    let size : length (take 63 s) ≡ 63 = omega (arith, length-take 63 s) in
    let most = length-strip_end true (take 63 s) cut in
    let least = length-strip_end_le (take 63 s) in
    let more : is_empty (strip_end (take 63 s)) ≡ false =
      not_empty (strip_end (take 63 s)) (omega arith) in
    clean-IsSlug (strip_end (take 63 s)) (strip_end-is_clean true (take 63 s) cut)
      (strip_end-ends_well true (take 63 s) more) (omega arith) (omega arith)

fit_length-IsSlug :
    (s : Text) → is_clean true s ≡ true → ends_well true s ≡ true → s ≢ [] → IsSlug (fit_length s)
unfolding fit_length
fit_length-IsSlug [] h k n = absurd (n refl)
fit_length-IsSlug (c ∷ []) h k n = short-IsSlug (c ∷ []) h n (omega arith)
fit_length-IsSlug (c ∷ d ∷ []) h k n = short-IsSlug (c ∷ d ∷ []) h n (omega arith)
fit_length-IsSlug (c ∷ d ∷ e ∷ s) h k n =
    let all = c ∷ d ∷ e ∷ s in
    let enough : ltb (length all) 3 ≡ false = ground arith in
    elim (Bool-cases (ltb 63 (length all))) [
      | inl long ↦ rw (enough, long) (long-IsSlug all h (ground arith))
      | inr fits ↦ rw (enough, fits) (clean-IsSlug all h k (omega arith) (ground arith))
    ]

suffix_alone : ¬ IsSlug (fit_length [])
unfolding fit_length codes
suffix_alone (c, u, d, e, first, low, high, mid, last) = ground arith

module _ (case : CaseMapping) (normalize : Text → Text) (input : Text) where
  base_is_clean : is_clean true (slug_base case normalize input) ≡ true
  unfolding slug_base
  base_is_clean =
      let hyphenated = hyphenate false (strip_marks (normalize (case.to_lower_case input))) in
      strip_end-is_clean true (strip_start hyphenated) (
        strip_start-is_clean hyphenated
          (hyphenate-is_clean false (strip_marks (normalize (case.to_lower_case input)))))

  base_ends_well :
      slug_base case normalize input ≢ [] → ends_well true (slug_base case normalize input) ≡ true
  unfolding slug_base
  base_ends_well n = elim (Bool-cases (is_empty (slug_base case normalize input))) [
    | inl empty ↦ absurd (n (nil_of_empty _ empty))
    | inr more ↦
        strip_end-ends_well true
          (strip_start (hyphenate false (strip_marks (normalize (case.to_lower_case input))))) more
  ]

  -- Without an explicit slug, a name gives a slug exactly when a letter or a digit is left of it, that is,
  -- when what the replacements make of it is not empty: it is then 3 to 63 units of letters, digits and
  -- hyphens, with no hyphen at an end.
  pub slugify-IsSlug :
      IsSlug (slugify case normalize none input) ↔ (slug_base case normalize input ≢ [])
  unfolding slugify
  slugify-IsSlug = (
    λ h empty. suffix_alone (subst (λ s. IsSlug (fit_length s)) empty h),
    λ n. fit_length-IsSlug (slug_base case normalize input) base_is_clean (base_ends_well n) n,
  )
