-- ===== src/TenantCore/Slug.antt =====
-- tenant-core/domain/value-objects/tenant-slug.vo.ts
pub mod Shape
use multi_tenant_saa_s_platf.Base.{
  ℕ, Bool, true, false, ◌||◌, ◌&&◌, List, [], ◌∷◌, ◌++◌, Text, Result, ok, fail, Exception,
  validation, leb, ◌==◌, trim, CaseMapping, throw_if, not, ◌>>=◌, ◌>>◌,
}
use multi_tenant_saa_s_platf.Regex.{Atom, one, repeat, match}

pub record TenantSlug : Type 0 where
  pub value : Text

-- `[a-z0-9]` and `[a-z0-9-]`
abbrev pub is_alnum : ℕ → Bool
is_alnum c = (leb b'a' c && leb c b'z') || (leb b'0' c && leb c b'9')

abbrev pub is_slug_unit : ℕ → Bool
is_slug_unit c = is_alnum c || c == b'-'

-- `PATTERN`: `/^[a-z0-9][a-z0-9-]{1,61}[a-z0-9]$/`
unfoldable pub pattern_atoms : List Atom
unfolding repeat
pattern_atoms = one is_alnum ∷ (repeat is_slug_unit 1 61 ++ one is_alnum ∷ [])

abbrev pub invalid_slug : Exception
invalid_slug = validation (
    (
      "slug",
      "Slug must be 3-63 lowercase alphanumeric characters or hyphens, not starting or ending with a hyphen"
          ∷ [],
    )
    ∷ [])

-- `TenantSlug.create`
unfoldable pub create : CaseMapping → Text → Result TenantSlug
create case value =
    let normalized = trim (case.to_lower_case value) in
    throw_if (not (match pattern_atoms normalized)) invalid_slug
    >> ok (record { value = normalized })
