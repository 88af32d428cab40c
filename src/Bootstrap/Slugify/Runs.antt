-- ===== src/Bootstrap/Slugify/Runs.antt =====
-- Runs of hyphens in the replacements of `slugify` of scripts/bootstrap-platform-admin.ts.
use multi_tenant_saa_s_platf.Base.{
  ℕ, zero, suc, ◌+◌, ◌≡◌, ◌≤◌, refl, inl, inr, Bool, true, false, not, ◌&&◌, ◌==◌, [], ◌∷◌, Text,
  arith, Bool-cases, is_empty, nil_of_empty, length, take,
}
use multi_tenant_saa_s_platf.TenantCore.Slug.{is_alnum}
use multi_tenant_saa_s_platf.Bootstrap.Slugify.{hyphenate, strip_start, strip_end}

-- Letters, digits and single hyphens; the first argument tells that a hyphen stands before.
unfoldable pub is_clean : Bool → Text → Bool
is_clean after_hyphen [] = true
is_clean after_hyphen (c ∷ s) = elim (is_alnum c) [
  | true ↦ is_clean false s
  | false ↦ c == b'-' && not after_hyphen && is_clean true s
]

-- The last unit is no hyphen; the first argument tells it of the text before.
unfoldable pub ends_well : Bool → Text → Bool
ends_well before [] = before
ends_well before (c ∷ s) = ends_well (not (c == b'-')) s

pub hyphenate-is_clean : (b : Bool) (s : Text) → is_clean b (hyphenate b s) ≡ true
unfolding is_clean hyphenate
hyphenate-is_clean b [] = refl
hyphenate-is_clean true (c ∷ s) = elim (Bool-cases (is_alnum c)) [
  | inl plain ↦ ground (arith, hyphenate-is_clean false s)
  | inr other ↦ ground (arith, hyphenate-is_clean true s)
]
hyphenate-is_clean false (c ∷ s) = elim (Bool-cases (is_alnum c)) [
  | inl plain ↦ ground (arith, hyphenate-is_clean false s)
  | inr other ↦ ground (arith, hyphenate-is_clean true s)
]

-- What comes after a hyphen begins with a letter or a digit, and can stand anywhere.
is_clean_weaken : (s : Text) → is_clean true s ≡ true → is_clean false s ≡ true
unfolding is_clean
is_clean_weaken [] h = refl
is_clean_weaken (c ∷ s) h = ground arith

strip_start_fixed : (s : Text) → is_clean true s ≡ true → strip_start s ≡ s
unfolding is_clean strip_start
strip_start_fixed [] h = refl
strip_start_fixed (c ∷ s) h = ground arith

pub strip_start-is_clean :
    (s : Text) → is_clean false s ≡ true → is_clean true (strip_start s) ≡ true
unfolding is_clean strip_start
strip_start-is_clean [] h = refl
strip_start-is_clean (c ∷ s) h = elim (Bool-cases (is_alnum c)) [
  | inl plain ↦ ground arith
  | inr other ↦ ground (arith, strip_start_fixed s)
]

pub strip_end-is_clean :
    (b : Bool) (s : Text) → is_clean b s ≡ true → is_clean b (strip_end s) ≡ true
unfolding is_clean strip_end
strip_end-is_clean b [] h = refl
strip_end-is_clean b (c ∷ s) h = elim (Bool-cases (is_alnum c)) [
  | inl plain ↦ ground (arith, strip_end-is_clean false s)
  | inr other ↦ ground (arith, strip_end-is_clean true s)
]

pub strip_end-ends_well :
    (b : Bool) (s : Text) → is_empty (strip_end s) ≡ false → ends_well b (strip_end s) ≡ true
unfolding ends_well strip_end
strip_end-ends_well b [] h = ground arith
strip_end-ends_well b (c ∷ s) h = elim (Bool-cases (is_empty (strip_end s))) [
  | inl empty ↦ let rest = nil_of_empty (strip_end s) empty in ground arith
  | inr more ↦ ground (arith, strip_end-ends_well (not (c == b'-')) s)
]

stripped_empty : (s : Text) → is_clean true s ≡ true → is_empty (strip_end s) ≡ true → s ≡ []
unfolding is_clean strip_end
stripped_empty [] h k = refl
stripped_empty (c ∷ s) h k = ground arith

-- At most one hyphen is taken off the end.
pub length-strip_end :
    (b : Bool) (s : Text) → is_clean b s ≡ true → length s ≤ length (strip_end s) + 1
unfolding is_clean strip_end
length-strip_end b [] h = ground arith
length-strip_end b (c ∷ s) h = elim (Bool-cases (is_alnum c)) [
  | inl plain ↦ ground (arith, length-strip_end false s)
  | inr other ↦ ground (arith, length-strip_end true s, stripped_empty s)
]

pub length-strip_end_le : (s : Text) → length (strip_end s) ≤ length s
unfolding strip_end
length-strip_end_le [] = ground arith
length-strip_end_le (c ∷ s) = ground (arith, length-strip_end_le s)

pub take-is_clean :
    (b : Bool) (n : ℕ) (s : Text) → is_clean b s ≡ true → is_clean b (take n s) ≡ true
unfolding is_clean
take-is_clean b zero s h = refl
take-is_clean b (suc n) [] h = refl
take-is_clean b (suc n) (c ∷ s) h = elim (Bool-cases (is_alnum c)) [
  | inl plain ↦ ground (arith, take-is_clean false n s)
  | inr other ↦ ground (arith, take-is_clean true n s)
]
