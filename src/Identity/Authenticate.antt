-- ===== src/Identity/Authenticate.antt =====
-- identity/application/commands/authenticate. The state is the table of users and that of
-- organizations. The messages that are logged are left out.
pub mod Session
use multi_tenant_saa_s_platf.Base.{
  ℕ, ◌≤◌, ◌<◌, ◌+◌, ◌≡◌, not, Option, none, some, List, [], ◌∷◌, Text, String, Result, ok, fail,
  Exception, unauthorized, CaseMapping, throw_if, ◌===◌, ltb, length, if◌then◌else◌,
}
use multi_tenant_saa_s_platf.Base.Actions.{Action, lift, pure, ◌>>=◌, ◌>>◌, on_first, on_second}
use multi_tenant_saa_s_platf.Kernel.Repository.{Repository}
use multi_tenant_saa_s_platf.Kernel.Tenancy.{MembershipRole, role_value, status_value, TenantStatus}
use multi_tenant_saa_s_platf.Http.Credentials.{JwtPayload, access, refresh}
use multi_tenant_saa_s_platf.TenantCore.Organization
use multi_tenant_saa_s_platf.TenantCore.Organization.{Organization}
use multi_tenant_saa_s_platf.TenantCore.Repository.{
  organization_column, find_by_slug, find_by_owner_id,
}
use multi_tenant_saa_s_platf.Identity.User.{
  Bcrypt, User, UserStatus, user_status_value, verify_password, is_active, record_login,
}
use multi_tenant_saa_s_platf.Identity.UserRepository.{user_column, find_by_email, save}

-- The library @nestjs/jwt: a signed token verifies to its claims until its lifetime is over, and
-- not afterwards. A lifetime is a text such as "15m", an instant a number of seconds.
pub record Jwt : Type 1 where
  pub Token : Type 0
  pub lifetime : String → ℕ
  pub sign : JwtPayload → String → ℕ → Token
  pub verify : Token → ℕ → Option JwtPayload
  pub verify-sign :
      (claims : JwtPayload) (expires_in : String) (issued at : ℕ)
      → at < issued + lifetime expires_in
      → verify (sign claims expires_in issued) at ≡ some claims
  pub verify-expired :
      (claims : JwtPayload) (expires_in : String) (issued at : ℕ)
      → issued + lifetime expires_in ≤ at
      → verify (sign claims expires_in issued) at ≡ none

pub record AuthenticateCommand : Type 0 where
  pub email : Text
  pub password : Text
  pub organization_slug : Option Text

pub record TokenPair (Token : Type 0) : Type 0 where
  pub access_token : Token
  pub refresh_token : Token
  pub expires_in : ℕ
  pub user_id : Text
  pub email : Text
  pub tenant_id : Text

-- The readings of the clock, by their purpose.
pub record Clock : Type 0 where
  pub loaded : ℕ
  pub loaded_again : ℕ
  pub login : ℕ
  pub touched : ℕ
  pub saved : ℕ
  pub saved_again : ℕ
  pub access_issued : ℕ
  pub refresh_issued : ℕ

abbrev pub invalid_credentials : Exception
invalid_credentials = unauthorized (record { template = "Invalid credentials"; values = [] })

module _ (case : CaseMapping) (bcrypt : Bcrypt) (jwt : Jwt) (users : Repository user_column)
    (organizations : Repository organization_column) where
  -- `resolveOrganization`; an empty slug counts as absent.
  unfoldable pub resolve_organization :
      Text → Option Text → Action organizations.Table (Option Organization)
  resolve_organization user_id none = find_by_owner_id case organizations user_id
  resolve_organization user_id (some slug) =
      if ltb 0 (length slug)
      then find_by_slug case organizations slug
      else find_by_owner_id case organizations user_id

  -- The checks of `execute`, up to the organization that the session is for.
  unfoldable pub admit :
      AuthenticateCommand → Clock → Action (users.Table × organizations.Table) (User × Organization)
  unfolding resolve_organization
  admit command clock = do
    found ← on_first (find_by_email case users clock.loaded clock.loaded_again command.email)
    user ← lift (elim found [ none ↦ fail invalid_credentials | some user ↦ ok user ])
    lift (throw_if (not (verify_password bcrypt command.password user)) invalid_credentials)
    lift (
        throw_if (not (is_active user)) (
          unauthorized
            (record { template = "Account is {}"; values = user_status_value user.status ∷ [] })))
    resolved ← on_second (resolve_organization user.id command.organization_slug)
    organization ←
        lift
          (elim resolved [ none ↦ fail invalid_credentials | some organization ↦ ok organization ])
    lift (throw_if (not (organization.owner_id === user.id)) invalid_credentials)
    lift (
        throw_if (not (Organization.is_status organization.status TenantStatus.active)) (
          unauthorized
            (record { template = "Tenant is {}"; values = status_value organization.status ∷ [] })))
    pure (user, organization)

  -- The two tokens and what is returned with them.
  unfoldable pub issue_tokens : Clock → User → Organization → TokenPair jwt.Token
  issue_tokens clock user organization = record {
    access_token =
        jwt.sign
          (record {
            sub = user.id;
            email = some user.email.value;
            tenant_id = organization.id;
            role = some (role_value MembershipRole.owner);
            type = access;
          })
          "15m" clock.access_issued;
    refresh_token =
        jwt.sign
          (record {
            sub = user.id;
            email = none;
            tenant_id = organization.id;
            role = none;
            type = refresh;
          })
          "7d" clock.refresh_issued;
    expires_in = 900;
    user_id = user.id;
    email = user.email.value;
    tenant_id = organization.id;
  }

  -- `AuthenticateHandler.execute`
  unfoldable pub execute :
      AuthenticateCommand → Clock → Action (users.Table × organizations.Table) (TokenPair jwt.Token)
  unfolding admit issue_tokens
  execute command clock = do
    (user, organization) ← admit command clock
    on_first (
        save case users clock.saved clock.saved_again (record_login clock.login clock.touched user))
    pure (issue_tokens clock (record_login clock.login clock.touched user) organization)
