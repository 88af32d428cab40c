-- ===== src/Tests/Identity.antt =====
-- The theorems on users at concrete inputs.
use multi_tenant_saa_s_platf.Base.{
  ℕ, ◌+◌, ◌≤◌, ◌≡◌, ◌↔◌, ◌⊎◌, refl, false, none, some, List, [], ◌∷◌, Text, ok, fail, Exception,
  conflict, ascii, ◌===◌, trim, arith, ltb, length, text_eq_refl, if◌then◌else◌,
}
use multi_tenant_saa_s_platf.Kernel.Entity.{new_entity, touch}
use multi_tenant_saa_s_platf.Kernel.Repository.{matches, fits, where_only, create_query_builder}
use multi_tenant_saa_s_platf.Kernel.Repository.Memory.{memory, holding, first, upsert}
use multi_tenant_saa_s_platf.Kernel.Tenancy.{TenantStatus, free}
use multi_tenant_saa_s_platf.Regex.{match}
use multi_tenant_saa_s_platf.Events.Envelope.{TenantAwareEvent}
use multi_tenant_saa_s_platf.Http.Credentials.{JwtPayload, validate}
use multi_tenant_saa_s_platf.TenantCore.Organization
use multi_tenant_saa_s_platf.TenantCore.Organization.{Organization}
use multi_tenant_saa_s_platf.TenantCore.Organization.Mapper
use multi_tenant_saa_s_platf.TenantCore.Plan.{for_tier}
use multi_tenant_saa_s_platf.TenantCore.Slug
use multi_tenant_saa_s_platf.TenantCore.Repository
use multi_tenant_saa_s_platf.TenantCore.Repository.{organization_column, find_by_owner_id}
use multi_tenant_saa_s_platf.Identity.Email
use multi_tenant_saa_s_platf.Identity.Email.{pattern_atoms}
use multi_tenant_saa_s_platf.Identity.Email.Shape.{IsAddress, email-create_iff}
use multi_tenant_saa_s_platf.Identity.User
use multi_tenant_saa_s_platf.Identity.User.{
  Bcrypt, active, verify, verify_password, is_active, record_login,
}
use multi_tenant_saa_s_platf.Identity.UserRepository.{
  UserOrm, user_column, to_domain, to_orm, load, find_by_email, save, exists_by_email,
}
use multi_tenant_saa_s_platf.Identity.UserRepository.Rows.{exists_by_email-blind}
use multi_tenant_saa_s_platf.Identity.Register
use multi_tenant_saa_s_platf.Identity.Register.Outcomes.{execute-IsSaved, execute_failure, IsSaved}
use multi_tenant_saa_s_platf.Identity.Authenticate.{
  Jwt, AuthenticateCommand, Clock, resolve_organization, admit, issue_tokens, execute,
}
use multi_tenant_saa_s_platf.Identity.Authenticate.Session.{
  IsAdmitted, execute-IsAdmitted, issue_tokens-validate,
}
use multi_tenant_saa_s_platf.Tests.Fixtures.{acme, ann, row_of, log}

-- A hash that keeps the text, which is all that the promise on `compare` asks for.
abbrev plain : Bcrypt
plain = record {
  hash = λ plaintext rounds salt. plaintext;
  compare = λ plaintext hash. plaintext === hash;
  compare-hash = λ plaintext salt rounds. text_eq_refl plaintext;
}

-- A token that holds its claims and its end, with a lifetime of 900 seconds.
abbrev open_jwt : Jwt
open_jwt = record {
  Token = JwtPayload × ℕ;
  lifetime = λ expires_in. 900;
  sign = λ claims expires_in issued. (claims, issued + 900);
  verify = λ (claims, end_) at. if ltb at end_ then some claims else none;
  verify-sign = λ claims expires_in issued at soon. ground arith;
  verify-expired = λ claims expires_in issued at late. ground arith;
}

-- "a@b.c"
abbrev address : Text
address = b'a' ∷ b'@' ∷ b'b' ∷ b'.' ∷ b'c' ∷ []

abbrev secret : Text
secret = b's' ∷ b'e' ∷ b'c' ∷ b'r' ∷ b'e' ∷ b't' ∷ b'1' ∷ b'2' ∷ []

abbrev user_row : UserOrm
user_row = record {
  id = ann;
  email = address;
  password_hash = secret;
  display_name = ann;
  status = active;
  last_login_at = none;
  email_verified_at = some 2;
  created_at = some 1;
  updated_at = some 2;
}

abbrev user : User.User
user = record {
  base = record { id = ann; created_at = 1; updated_at = 2 };
  email = record { value = address };
  password_hash = record { hash = secret };
  display_name = ann;
  status = active;
  last_login_at = none;
  email_verified_at = some 2;
}

abbrev organization : Organization
organization = record {
  base = record { id = acme; created_at = 1; updated_at = 2 };
  name = acme;
  slug = record { value = acme };
  plan = record {
    tier = free;
    max_projects = 1;
    max_members = 3;
    max_api_keys = 2;
    audit_retention_days = 30;
  };
  status = TenantStatus.active;
  owner_id = ann;
  provisioned_at = some 3;
  settings = Organization.initial_settings;
  domain_events = [];
}

abbrev clock : Clock
clock = record {
  loaded = 10;
  loaded_again = 11;
  login = 12;
  touched = 13;
  saved = 14;
  saved_again = 15;
  access_issued = 16;
  refresh_issued = 17;
}

abbrev login : Text → AuthenticateCommand
login password = record { email = address; password = password; organization_slug = none }

issue_tokens-validate_example :
    ((claims : JwtPayload) × (open_jwt.verify
          (issue_tokens ascii plain open_jwt
            (memory user_column)
            (memory organization_column)
            clock
            user
            organization).access_token
          20
        ≡ some claims)
      × (validate claims ≡ ok claims)
      × (claims.sub ≡ ann)
      × (claims.tenant_id ≡ acme))
    × ((claims : JwtPayload) × (x : Exception) × (open_jwt.verify
            (issue_tokens ascii plain open_jwt
              (memory user_column)
              (memory organization_column)
              clock
              user
              organization).refresh_token
            20
          ≡ some claims)
        × (validate claims ≡ fail x))
issue_tokens-validate_example =
    issue_tokens-validate ascii plain open_jwt (memory user_column) (memory organization_column)
      clock user organization 20 (omega arith) (omega arith)

logged_in :
    execute ascii plain open_jwt
      (memory user_column)
      (memory organization_column)
      (login secret)
      clock
      (holding user_column (user_row ∷ []), holding organization_column (row_of acme ∷ []))
    ≡ (
      ok (
          issue_tokens ascii plain open_jwt
            (memory user_column)
            (memory organization_column)
            clock
            user
            organization),
      (
        holding user_column (
            record user_row { last_login_at = some 12; created_at = none; updated_at = none } ∷ []),
        holding organization_column (row_of acme ∷ []),
      ),
    )
unfolding organization_column execute admit resolve_organization find_by_owner_id issue_tokens
    is_active save to_orm record_login touch upsert Repository.load Mapper.to_domain
    Organization.reconstitute for_tier Slug.create Slug.pattern_atoms where_only fits
    create_query_builder find_by_email memory holding first matches user_column load to_domain
    Email.create pattern_atoms match trim ascii ◌===◌ User.reconstitute new_entity verify_password
    verify
logged_in = refl

execute-IsAdmitted_example :
    (u : User.User) × (o : Organization) × IsAdmitted ascii plain open_jwt
      (memory user_column)
      (memory organization_column)
      (login secret)
      clock
      (holding user_column (user_row ∷ []))
      (holding organization_column (row_of acme ∷ []))
      u
      o
    × (ann ≡ u.id)
    × (acme ≡ o.id)
    × (holding organization_column (row_of acme ∷ [])
        ≡ holding organization_column (row_of acme ∷ []))
unfolding issue_tokens
execute-IsAdmitted_example =
    execute-IsAdmitted ascii plain open_jwt (memory user_column) (memory organization_column)
      (login secret) clock (holding user_column (user_row ∷ []))
      (holding user_column
        (record user_row { last_login_at = some 12; created_at = none; updated_at = none } ∷ []))
      (holding organization_column (row_of acme ∷ []))
      (holding organization_column (row_of acme ∷ []))
      (issue_tokens ascii plain open_jwt (memory user_column) (memory organization_column) clock
        user organization)
      logged_in

email-create_iff_example :
    (Email.create ascii address ≡ ok (record { value = address }))
    ↔ ((address ≡ trim (ascii.to_lower_case address)) × IsAddress address × (length address ≤ 320))
email-create_iff_example = email-create_iff ascii address (record { value = address })

exists_by_email-blind_example : false ≡ false
unfolding holding memory exists_by_email matches user_column ◌===◌ Email.create pattern_atoms match
    trim ascii
exists_by_email-blind_example =
    exists_by_email-blind ascii (memory user_column) (32 ∷ address) (record { value = address })
      (holding user_column (user_row ∷ [])) (holding user_column (user_row ∷ [])) false (refl, tt)
      refl (λ e. cc) refl

abbrev registration : Register.RegisterUserCommand
registration = record {
  email = address;
  password = secret;
  display_name = ann;
  correlation_id = [];
}

abbrev supply : Register.Supply
supply = record {
  user_id = ann;
  salt = [];
  created = 1;
  updated = 2;
  loaded = 3;
  loaded_again = 4;
  occurred = 5;
  registered = 6;
}

abbrev new_row : UserOrm
new_row = record user_row {
  status = User.pending_verification;
  email_verified_at = none;
  created_at = none;
  updated_at = none;
}

abbrev new_user_saved : User.User
new_user_saved = record user {
  base = record { id = ann; created_at = 3; updated_at = 4 };
  status = User.pending_verification;
  email_verified_at = none;
}

execute_failure_example :
    (◌≡◌ {A = List TenantAwareEvent} [] [])
    ⊎ ((saved : User.User) × IsSaved ascii plain
          (memory user_column)
          log
          registration
          supply
          (holding user_column (user_row ∷ []))
          []
          saved
          (holding user_column (user_row ∷ []))
        × (log.publish (Register.registered_event registration supply saved) [] ≡ (
          fail (
              conflict (record {
                template = "User with email '{}' already exists";
                values = address ∷ [];
              })),
          [],
        )))
unfolding Register.execute exists_by_email memory holding matches user_column ◌===◌ ascii
execute_failure_example =
    execute_failure ascii plain (memory user_column) log registration supply
      (holding user_column (user_row ∷ [])) []
      (conflict
        (record { template = "User with email '{}' already exists"; values = address ∷ [] }))
      (holding user_column (user_row ∷ [])) [] refl

registered :
    Register.execute ascii plain
      (memory user_column)
      log
      registration
      supply
      (holding user_column [], [])
    ≡ (
      ok (record { user_id = ann; email = address; display_name = ann }),
      (
        holding user_column (new_row ∷ []),
        Register.registered_event registration supply new_user_saved ∷ [],
      ),
    )
unfolding Register.execute exists_by_email save to_orm upsert Register.registered_event User.create
    User.from_plaintext memory holding matches user_column load to_domain Email.create pattern_atoms
    match trim ascii ◌===◌ User.reconstitute new_entity
registered = refl

execute-IsSaved_example :
    (saved : User.User) × ((exists_by_email ascii
        (memory user_column)
        address
        (holding user_column [])).0
      ≡ ok false)
    × IsSaved ascii plain
        (memory user_column)
        log
        registration
        supply
        (holding user_column [])
        []
        saved
        (holding user_column (new_row ∷ []))
    × (ann ≡ saved.id)
    × (log.publish (Register.registered_event registration supply saved) []
        ≡ (ok tt, Register.registered_event registration supply new_user_saved ∷ []))
execute-IsSaved_example =
    execute-IsSaved ascii plain (memory user_column) log registration supply
      (holding user_column []) [] (record { user_id = ann; email = address; display_name = ann })
      (holding user_column (new_row ∷ []))
      (Register.registered_event registration supply new_user_saved ∷ []) registered
