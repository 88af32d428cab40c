-- ===== src/Identity/Email.antt =====
-- identity/domain/value-objects/email.vo.ts
pub mod Shape
use multi_tenant_saa_s_platf.Base.{
  ℕ, Bool, not, ◌||◌, List, [], ◌∷◌, ◌++◌, Text, Result, ok, Exception, validation, ltb, length,
  ◌==◌, is_space, trim, CaseMapping, throw_if, ◌>>=◌, ◌>>◌,
}
use multi_tenant_saa_s_platf.Regex.{Atom, one, star, match}

pub record Email : Type 0 where
  pub value : Text

-- `[^\s@]`
abbrev pub is_plain : ℕ → Bool
is_plain c = not (is_space c || c == b'@')

abbrev pub is_at : ℕ → Bool
is_at c = c == b'@'

abbrev pub is_dot : ℕ → Bool
is_dot c = c == b'.'

-- `PATTERN`: `/^[^\s@]+@[^\s@]+\.[^\s@]+$/`
unfoldable pub pattern_atoms : List Atom
pattern_atoms =
    one is_plain
    ∷ star is_plain
    ∷ one is_at
    ∷ one is_plain
    ∷ star is_plain
    ∷ one is_dot
    ∷ one is_plain
    ∷ star is_plain
    ∷ []

abbrev pub bad_email : Exception
bad_email = validation (("email", "Invalid email address format" ∷ []) ∷ [])

abbrev pub long_email : Exception
long_email =
    validation (("email", "Email address exceeds maximum length of 320 characters" ∷ []) ∷ [])

-- `Email.create`
unfoldable pub create : CaseMapping → Text → Result Email
create case value =
    let normalized = trim (case.to_lower_case value) in
    throw_if (not (match pattern_atoms normalized)) bad_email
    >> (throw_if (ltb 320 (length normalized)) long_email >> ok (record { value = normalized }))
