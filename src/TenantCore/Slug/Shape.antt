-- ===== src/TenantCore/Slug/Shape.antt =====
-- The texts that `TenantSlug.create` of tenant-slug.vo.ts makes a slug of.
use mathlib.Core.Path.{subst, sym}
use multi_tenant_saa_s_platf.Base.{
  ℕ, ◌≤◌, ◌≡◌, refl, ◌↔◌, true, [], ◌∷◌, ◌++◌, Text, ok, arith, All, length, length-append, trim,
  trim_idem, CaseMapping,
}
use multi_tenant_saa_s_platf.Regex.{match, Accepts}
use multi_tenant_saa_s_platf.Regex.Matching.{match_iff}
use multi_tenant_saa_s_platf.TenantCore.Slug.{
  TenantSlug, is_alnum, is_slug_unit, pattern_atoms, create,
}

-- A letter or digit at both ends, and 1 to 61 letters, digits and hyphens between them.
abbrev pub IsSlug : Text → Type 0
IsSlug s =
    (c : ℕ) × (u : Text) × (d : ℕ) × (s ≡ c ∷ (u ++ d ∷ []))
    × (is_alnum c ≡ true)
    × (1 ≤ length u)
    × (length u ≤ 61)
    × All (λ x. is_slug_unit x ≡ true) u
    × (is_alnum d ≡ true)

Accepts-IsSlug : (s : Text) → Accepts pattern_atoms s → IsSlug s
unfolding pattern_atoms
Accepts-IsSlug s
      (
        c,
        t,
        e,
        first,
        (c', t', e', second, (u, t'', e'', bound, mid, (d, t₃, e₃, last, nothing))),
      ) =
    (c, c' ∷ u, d, cc, first, omega arith, omega arith, (second, mid), last)

IsSlug-Accepts : (s : Text) → IsSlug s → Accepts pattern_atoms s
unfolding pattern_atoms
IsSlug-Accepts s (c, [], d, e, first, low, high, mid, last) = absurd (omega arith)
IsSlug-Accepts s (c, c' ∷ u, d, e, first, low, high, mid, last) = (
  c,
  c' ∷ (u ++ d ∷ []),
  e,
  first,
  (c', u ++ d ∷ [], refl, mid.0, (u, d ∷ [], refl, omega arith, mid.1, (d, [], refl, last, refl))),
)

pub pattern_iff : (s : Text) → (match pattern_atoms s ≡ true) ↔ IsSlug s
pattern_iff s =
    let (to, from) = match_iff pattern_atoms s in
    (λ h. Accepts-IsSlug s (to h), λ h. from (IsSlug-Accepts s h))

module _ (case : CaseMapping) where
  create_test :
      (value : Text) (slug : TenantSlug)
      → (create case value ≡ ok slug) ↔ (
          (slug.value ≡ trim (case.to_lower_case value))
          × (match pattern_atoms (trim (case.to_lower_case value)) ≡ true))
  unfolding create
  create_test value slug = ground arith

  -- Creation succeeds exactly when the text, in lower case and trimmed, has the shape of a slug
  -- (a letter or digit, 1 to 61 letters, digits and hyphens, a letter or digit), and the slug
  -- holds that text.
  pub create-IsSlug :
      (value : Text) (slug : TenantSlug)
      → (create case value ≡ ok slug)
        ↔ ((slug.value ≡ trim (case.to_lower_case value)) × IsSlug slug.value)
  create-IsSlug value slug =
      let (to, from) = create_test value slug in
      let (shape, test) = pattern_iff (trim (case.to_lower_case value)) in
      (
        λ h. ((to h).0, subst IsSlug (sym (to h).0) (shape (to h).1)),
        λ h. from (h.0, test (subst IsSlug h.0 h.1)),
      )

  -- A slug that was created is created again from its own text: reading one back from the database
  -- does not throw and does not change it.
  pub slug-create-value :
      (value : Text) (slug : TenantSlug)
      → create case value ≡ ok slug
      → create case slug.value ≡ ok slug
  slug-create-value value slug h =
      let (same, shape) = (create-IsSlug value slug).0 h in
      (create-IsSlug slug.value slug).1
        (rw (same, case.lower_trim, case.lower_idem, trim_idem) refl, shape)

  -- Every slug has 3 to 63 units, and neither its first nor its last one is a hyphen.
  pub slug-create_bounds :
      (value : Text) (slug : TenantSlug)
      → create case value ≡ ok slug
      → (3 ≤ length slug.value) × (length slug.value ≤ 63)
  slug-create_bounds value slug h =
      let (c, u, d, e, first, low, high, mid, last) = ((create-IsSlug value slug).0 h).1 in
      rw e (omega (arith, length-append {0} u (d ∷ [])))
