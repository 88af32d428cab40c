-- ===== src/Identity/User.antt =====
-- identity/domain/aggregates/user.aggregate.ts and value-objects/password-hash.vo.ts. The aggregate
-- adds no domain event, so its list of them is left out.
pub mod Lifecycle
use multi_tenant_saa_s_platf.Base.{
  ℕ, ◌≡◌, Bool, true, false, not, Option, none, some, List, [], ◌∷◌, Text, codes, Result, ok, fail,
  Exception, conflict, validation, ltb, length, CaseMapping, throw_if, ◌>>=◌, ◌>>◌, if◌then◌else◌,
}
use multi_tenant_saa_s_platf.Kernel.Entity.{Entity, new_entity, touch}
use multi_tenant_saa_s_platf.Identity.Email
use multi_tenant_saa_s_platf.Identity.Email.{Email}

-- The library bcrypt: a hash of a text depends on the rounds and the salt that it draws, and
-- verifies against that text.
pub record Bcrypt : Type 0 where
  pub hash : Text → ℕ → Text → Text
  pub compare : Text → Text → Bool
  pub compare-hash :
      (plaintext salt : Text) (rounds : ℕ) → compare plaintext (hash plaintext rounds salt) ≡ true

pub record PasswordHash : Type 0 where
  pub hash : Text

abbrev pub rounds : ℕ
rounds = 12

abbrev pub min_length : ℕ
min_length = 8

abbrev pub short_password : Exception
short_password = validation (("password", "Password must be at least 8 characters" ∷ []) ∷ [])

-- `PasswordHash.fromPlaintext`; the last argument is the salt.
unfoldable pub from_plaintext : Bcrypt → Text → Text → Result PasswordHash
from_plaintext bcrypt plaintext salt =
    throw_if (ltb (length plaintext) min_length) short_password
    >> ok (record { hash = bcrypt.hash plaintext rounds salt })

-- `PasswordHash.verify`
unfoldable pub verify : Bcrypt → Text → PasswordHash → Bool
verify bcrypt plaintext password_hash = bcrypt.compare plaintext password_hash.hash

pub data UserStatus : Type 0 where
  pending_verification active suspended : UserStatus

unfoldable pub user_status_value : UserStatus → Text
unfolding codes
user_status_value pending_verification = codes "pending_verification"
user_status_value active = codes "active"
user_status_value suspended = codes "suspended"

pub record UserProps : Type 0 where
  pub user_id : Text
  pub email : Email
  pub password_hash : PasswordHash
  pub display_name : Text
  pub status : UserStatus
  pub last_login_at : Option ℕ
  pub email_verified_at : Option ℕ
  pub created_at : Option ℕ
  pub updated_at : Option ℕ

pub record User : Type 0 where
  pub base : Entity
  pub open base use *
  pub email : Email
  pub password_hash : PasswordHash
  pub display_name : Text
  pub status : UserStatus
  pub last_login_at : Option ℕ
  pub email_verified_at : Option ℕ

-- The constructor, which `reconstitute` is too.
unfoldable pub reconstitute : UserProps → ℕ → ℕ → User
unfolding new_entity
reconstitute props now now' = record {
  base =
      new_entity
        (record {
          id = some props.user_id;
          created_at = props.created_at;
          updated_at = props.updated_at;
        })
        props.user_id now now';
  email = props.email;
  password_hash = props.password_hash;
  display_name = props.display_name;
  status = props.status;
  last_login_at = props.last_login_at;
  email_verified_at = props.email_verified_at;
}

pub record CreateParams : Type 0 where
  pub email : Text
  pub password : Text
  pub display_name : Text

unfoldable pub create : CaseMapping → Bcrypt → CreateParams → Text → Text → ℕ → ℕ → Result User
unfolding reconstitute from_plaintext
create case bcrypt params user_id salt now now' = do
  email ← Email.create case params.email
  password_hash ← from_plaintext bcrypt params.password salt
  ok (
      reconstitute
        (record {
          user_id = user_id;
          email = email;
          password_hash = password_hash;
          display_name = params.display_name;
          status = pending_verification;
          last_login_at = none;
          email_verified_at = none;
          created_at = none;
          updated_at = none;
        })
        now now')

abbrev pub is_status : UserStatus → UserStatus → Bool
is_status pending_verification pending_verification = true
is_status active active = true
is_status suspended suspended = true
is_status _ _ = false

unfoldable pub verify_password : Bcrypt → Text → User → Bool
unfolding verify
verify_password bcrypt plaintext user = verify bcrypt plaintext user.password_hash

unfoldable pub activate : ℕ → ℕ → User → Result User
unfolding touch
activate now touched user =
    throw_if (not (is_status user.status pending_verification)) (
      conflict (record {
        template = "Cannot activate user in status: {}";
        values = user_status_value user.status ∷ [];
      }))
    >> ok (record user {
      base = touch touched user.base;
      status = active;
      email_verified_at = some now;
    })

unfoldable pub record_login : ℕ → ℕ → User → User
unfolding touch
record_login now touched user = record user {
  base = touch touched user.base;
  last_login_at = some now;
}

unfoldable pub suspend : ℕ → User → User
unfolding touch
suspend touched user =
    if is_status user.status suspended
    then user
    else record user { base = touch touched user.base; status = suspended }

-- The getter `isActive`
unfoldable pub is_active : User → Bool
is_active user = is_status user.status active
