-- ===== src/Identity/UserRepository.antt =====
-- identity/infrastructure/persistence/user.repository.ts and user.orm-entity.ts
pub mod Rows
use text.Mathlib.Text.{◌==◌ as str_eq}
use multi_tenant_saa_s_platf.Base.{
  ℕ, Bool, Option, none, some, List, [], ◌∷◌, Text, String, Result, ok, fail, CaseMapping,
  ◌>>=◌ as bind, if◌then◌else◌,
}
use multi_tenant_saa_s_platf.Base.Actions.{Action, lift, reading, ◌>>=◌}
use multi_tenant_saa_s_platf.Kernel.Repository.{Repository}
use multi_tenant_saa_s_platf.Identity.Email
use multi_tenant_saa_s_platf.Identity.User.{User, UserStatus, reconstitute}

-- The dates that the database fills in may be absent.
pub record UserOrm : Type 0 where
  pub id : Text
  pub email : Text
  pub password_hash : Text
  pub display_name : Text
  pub status : UserStatus
  pub last_login_at : Option ℕ
  pub email_verified_at : Option ℕ
  pub created_at : Option ℕ
  pub updated_at : Option ℕ

unfoldable pub user_column : String → UserOrm → Text
user_column k u =
    if str_eq k "id" then u.id else if str_eq k "email" then u.email else u.display_name

-- The last arguments are the readings of the clock for the dates that are absent.
unfoldable pub to_domain : CaseMapping → UserOrm → ℕ → ℕ → Result User
unfolding reconstitute
to_domain case orm now now' = bind (Email.create case orm.email) λ email. ok (
    reconstitute
      (record {
        user_id = orm.id;
        email = email;
        password_hash = record { hash = orm.password_hash };
        display_name = orm.display_name;
        status = orm.status;
        last_login_at = orm.last_login_at;
        email_verified_at = orm.email_verified_at;
        created_at = orm.created_at;
        updated_at = orm.updated_at;
      })
      now now')

-- `toOrm` sets no date of creation or update.
unfoldable pub to_orm : User → UserOrm
to_orm user = record {
  id = user.id;
  email = user.email.value;
  password_hash = user.password_hash.hash;
  display_name = user.display_name;
  status = user.status;
  last_login_at = user.last_login_at;
  email_verified_at = user.email_verified_at;
  created_at = none;
  updated_at = none;
}

-- `orm ? this.toDomain(orm) : null`
unfoldable pub load : CaseMapping → Option UserOrm → ℕ → ℕ → Result (Option User)
load case none now now' = ok none
load case (some orm) now now' = bind (to_domain case orm now now') λ user. ok (some user)

module _ (case : CaseMapping) (repo : Repository user_column) (now now' : ℕ) where
  unfoldable pub find_by_id : Text → Action repo.Table (Option User)
  find_by_id id = do orm ← reading (repo.find_one (("id", id) ∷ [])); lift (load case orm now now')

  unfoldable pub find_by_email : Text → Action repo.Table (Option User)
  find_by_email email = do
    orm ← reading (repo.find_one (("email", case.to_lower_case email) ∷ []))
    lift (load case orm now now')

  unfoldable pub save : User → Action repo.Table User
  save user = do saved ← repo.save (to_orm user); lift (to_domain case saved now now')

module _ (case : CaseMapping) (repo : Repository user_column) where
  unfoldable pub exists_by_email : Text → Action repo.Table Bool
  exists_by_email email = reading (repo.exists_by (("email", case.to_lower_case email) ∷ []))
