-- ===== src/Base/Exceptions.antt =====
-- Exceptions and fallible results (libs/shared-kernel/src/exceptions and types/result.types.ts).
use Prim.Native.String.{String}
use mathlib.Core.Path.{◌≡◌, refl}
use mathlib.Core.Logic.{◌⊎◌, inl, inr}
use mathlib.Core.Bool.{Bool, true, false}
use mathlib.Core.List.{List}
use multi_tenant_saa_s_platf.Base.Strings.{Text}

-- A message built by a template literal: the literal, and the values put into it.
pub record Message : Type 0 where
  pub template : String
  pub values : List Text

-- The classes that are thrown; `error` is a plain `Error`.
pub data Exception : Type 0 where
  not_found : String → Text → Exception
  conflict unauthorized forbidden error : Message → Exception
  validation : List (String × List String) → Exception

-- What a call gives: its value, or what it throws. A `Result.fail` is thrown by the caller at once.
pub data Result {ℓ} (A : Type ℓ) : Type ℓ where
  ok : A → Result A
  fail : Exception → Result A

infixl 5 ◌>>=◌ ◌>>◌
abbrev pub ◌>>=◌ {ℓ κ} : {A : Type ℓ} {B : Type κ} → Result A → (A → Result B) → Result B
ok a >>= f = f a
fail e >>= f = fail e

abbrev pub ◌>>◌ {ℓ} : {B : Type ℓ} → Result (Unit {0}) → Result B → Result B
m >> k = m >>= λ _. k

-- `if (bad) throw e;`
abbrev pub throw_if : Bool → Exception → Result (Unit {0})
throw_if true e = fail e
throw_if false e = ok tt

pub Result-cases {ℓ} :
    {A : Type ℓ} (r : Result A) → ((a : A) × (r ≡ ok a)) ⊎ ((e : Exception) × (r ≡ fail e))
Result-cases (ok a) = inl (a, refl)
Result-cases (fail e) = inr (e, refl)

pub fail_not_ok : {A : Type 0} (e : Exception) (a : A) → ¬ (◌≡◌ {A = Result A} (fail e) (ok a))
fail_not_ok e a h = cc
