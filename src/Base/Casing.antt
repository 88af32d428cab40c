-- ===== src/Base/Casing.antt =====
-- `toLowerCase`, which stands on the tables of Unicode: a parameter of what uses it.
use Prim.Native.Nat.{ℕ, ◌+◌}
use mathlib.Core.Path.{◌≡◌, refl}
use mathlib.Core.Bool.{◌&&◌}
use mathlib.Core.Logic.{inl, inr}
use mathlib.Core.List.{[], ◌∷◌, map, reverse, reverse_aux}
use native.Mathlib.Omega.{arith}
use multi_tenant_saa_s_platf.Base.Tests.{leb, if◌then◌else◌, Bool-cases}
use multi_tenant_saa_s_platf.Base.Strings.{Text, is_space, trim_start, trim}

-- A text in lower case stays as it is, and white space is neither made nor lost.
pub record CaseMapping : Type 0 where
  pub to_lower_case : Text → Text
  pub lower_idem : (s : Text) → to_lower_case (to_lower_case s) ≡ to_lower_case s
  pub lower_trim : (s : Text) → to_lower_case (trim s) ≡ trim (to_lower_case s)

-- The mapping of the ASCII letters.
abbrev pub lower_unit : ℕ → ℕ
lower_unit c = if leb b'A' c && leb c b'Z' then c + 32 else c

lower_unit_idem : (c : ℕ) → lower_unit (lower_unit c) ≡ lower_unit c
lower_unit_idem c = ground arith

lower_unit_space : (c : ℕ) → is_space (lower_unit c) ≡ is_space c
lower_unit_space c = ground arith

pub map_lower_idem : (s : Text) → map lower_unit (map lower_unit s) ≡ map lower_unit s
map_lower_idem [] = refl
map_lower_idem (c ∷ s) = cc (lower_unit_idem c, map_lower_idem s)

map-trim_start : (s : Text) → map lower_unit (trim_start s) ≡ trim_start (map lower_unit s)
unfolding trim_start
map-trim_start [] = refl
map-trim_start (c ∷ s) = elim (Bool-cases (is_space c)) [
  | inl blank ↦ rw (lower_unit_space c, blank) (map-trim_start s)
  | inr solid ↦ rw (lower_unit_space c, solid) refl
]

map-reverse_aux :
    (f : ℕ → ℕ) (s t : Text) → map f (reverse_aux s t) ≡ reverse_aux (map f s) (map f t)
map-reverse_aux f [] t = refl
map-reverse_aux f (c ∷ s) t = map-reverse_aux f s (c ∷ t)

map-reverse : (f : ℕ → ℕ) (s : Text) → map f (reverse s) ≡ reverse (map f s)
map-reverse f s = map-reverse_aux f s []

pub map-trim : (s : Text) → map lower_unit (trim s) ≡ trim (map lower_unit s)
unfolding trim
map-trim s = simp (map-reverse, map-trim_start)

unfoldable pub ascii : CaseMapping
ascii = record {
  to_lower_case = map lower_unit;
  lower_idem = map_lower_idem;
  lower_trim = map-trim;
}
