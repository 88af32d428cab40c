-- ===== src/Base/Trim.antt =====
-- `trim` on what `trim` has given.
use mathlib.Core.Path.{◌≡◌, refl, sym, ap, ◌∙◌}
use mathlib.Core.Bool.{false}
use mathlib.Core.Logic.{inl, inr}
use mathlib.Core.List.{[], ◌∷◌, ◌++◌, reverse, reverse-append, reverse-reverse}
use multi_tenant_saa_s_platf.Base.Tests.{Bool-cases}
use multi_tenant_saa_s_platf.Base.Strings.{Text, is_space, trim_start, trim}

-- A text that does not begin with white space.
abbrev pub NoLead : Text → Type 0
NoLead [] = Unit
NoLead (c ∷ s) = is_space c ≡ false

trim_start-NoLead : (s : Text) → NoLead (trim_start s)
unfolding trim_start
trim_start-NoLead [] = tt
trim_start-NoLead (c ∷ s) = elim (Bool-cases (is_space c)) [
  | inl blank ↦ rw blank (trim_start-NoLead s)
  | inr solid ↦ rw solid solid
]

trim_start_fixed : (s : Text) → NoLead s → trim_start s ≡ s
unfolding trim_start
trim_start_fixed [] h = refl
trim_start_fixed (c ∷ s) h = rw h

trim_start_split : (s : Text) → (p : Text) × (s ≡ p ++ trim_start s)
unfolding trim_start
trim_start_split [] = ([], refl)
trim_start_split (c ∷ s) = elim (Bool-cases (is_space c)) [
  | inl blank ↦ let (p, e) = trim_start_split s in (c ∷ p, rw blank (ap (λ t. c ∷ t) e))
  | inr solid ↦ ([], rw solid)
]

NoLead-prefix : (s t : Text) → NoLead (s ++ t) → NoLead s
NoLead-prefix [] t h = tt
NoLead-prefix (c ∷ s) t h = h

-- Stripping the end leaves the start as it is.
trim_end-NoLead : (s : Text) → NoLead s → NoLead (reverse (trim_start (reverse s)))
trim_end-NoLead s h =
    let (p, e) = trim_start_split (reverse s) in
    let whole : s ≡ reverse (trim_start (reverse s)) ++ reverse p =
      sym (reverse-reverse s) ∙ ap reverse e ∙ reverse-append p (trim_start (reverse s)) in
    NoLead-prefix _ (reverse p) (rw whole at h)

pub trim_idem : (s : Text) → trim (trim s) ≡ trim s
unfolding trim
trim_idem s = rw (
  trim_start_fixed _ (trim_end-NoLead (trim_start s) (trim_start-NoLead s)),
  reverse-reverse,
  trim_start_fixed _ (trim_start-NoLead (reverse (trim_start s))),
)
