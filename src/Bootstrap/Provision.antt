-- ===== src/Bootstrap/Provision.antt =====
-- The steps of scripts/bootstrap-platform-admin.ts. The state is the tables of users and organizations;
-- the start of the application, its end and logging are left out.
pub mod Readiness
pub mod Outcomes
use multi_tenant_saa_s_platf.Base.{
  ℕ, Bool, true, false, not, ◌&&◌, Option, none, some, List, [], ◌∷◌, ◌++◌, Text, String, codes,
  Result, ok, fail, error, ◌===◌, get_or, throw_if, ◌>>=◌ as bind, ◌>>◌ as andthen, is_empty,
  is_truthy, trim, map_option, CaseMapping,
}
use multi_tenant_saa_s_platf.Base.Actions.{Action, lift, pure, ◌>>=◌, ◌>>◌, on_first, on_second}
use multi_tenant_saa_s_platf.Kernel.Repository.{Repository}
use multi_tenant_saa_s_platf.Kernel.Tenancy.{TenantPlanTier, enterprise}
use multi_tenant_saa_s_platf.TenantCore.Organization
use multi_tenant_saa_s_platf.TenantCore.Repository.{organization_column, find_by_slug, provision}
use multi_tenant_saa_s_platf.Identity.User
use multi_tenant_saa_s_platf.Identity.User.{Bcrypt}
use multi_tenant_saa_s_platf.Identity.UserRepository.{user_column, find_by_email, save}
use multi_tenant_saa_s_platf.Bootstrap.Slugify.{slugify}

-- The variables of `process.env` that the script reads; the plan, where it is set, names a tier.
pub record Environment : Type 0 where
  pub initial_admin_email : Option Text
  pub initial_admin_password : Option Text
  pub initial_admin_name : Option Text
  pub initial_tenant_name : Option Text
  pub initial_tenant_slug : Option Text
  pub initial_tenant_plan : Option TenantPlanTier
  pub node_env : Option Text
  pub bootstrap_allow_prod : Option Text

pub record BootstrapConfig : Type 0 where
  pub admin_email : Text
  pub admin_password : Text
  pub admin_name : Text
  pub tenant_name : Text
  pub tenant_slug : Text
  pub plan_tier : TenantPlanTier

-- `if (isNil(v) || v.length === 0) missing.push(name)`
abbrev pub missing_if_empty : Option Text → Text → List Text
missing_if_empty none name = name ∷ []
missing_if_empty (some []) name = name ∷ []
missing_if_empty (some (c ∷ v)) name = []

-- The names that `readConfig` finds missing
unfoldable pub missing_variables : Environment → List Text
unfolding codes trim
missing_variables env =
    missing_if_empty (map_option trim env.initial_admin_email) (codes "INITIAL_ADMIN_EMAIL")
    ++ (missing_if_empty env.initial_admin_password (codes "INITIAL_ADMIN_PASSWORD")
        ++ (missing_if_empty (map_option trim env.initial_admin_name) (codes "INITIAL_ADMIN_NAME")
            ++ missing_if_empty (map_option trim env.initial_tenant_name)
                (codes "INITIAL_TENANT_NAME")))

-- `readConfig`; the message joins the missing names.
unfoldable pub read_config : CaseMapping → (Text → Text) → Environment → Result BootstrapConfig
unfolding slugify trim missing_variables
read_config case normalize env =
    let tenant_name = get_or (map_option trim env.initial_tenant_name) [] in
    andthen
      (throw_if (not (is_empty (missing_variables env))) (
        error (record {
          template =
              "[bootstrap] Missing required environment variables: {}. Copy .env.example to .env and fill them in, or export them in your shell.";
          values = missing_variables env;
        })))
      (ok (record {
        admin_email = get_or (map_option trim env.initial_admin_email) [];
        admin_password = get_or env.initial_admin_password [];
        admin_name = get_or (map_option trim env.initial_admin_name) [];
        tenant_name = tenant_name;
        tenant_slug = slugify case normalize env.initial_tenant_slug tenant_name;
        plan_tier = get_or env.initial_tenant_plan enterprise;
      }))

-- `v === expected`, on a variable that may not be set
abbrev pub is_set_to : Option Text → Text → Bool
is_set_to none expected = false
is_set_to (some v) expected = v === expected

unfoldable pub guard_production : Environment → Result (Unit {0})
unfolding codes
guard_production env =
    throw_if
      (is_set_to env.node_env (codes "production")
        && not (is_set_to env.bootstrap_allow_prod (codes "true")))
      (error (record {
        template =
            "[bootstrap] Refusing to run with NODE_ENV=production. Set BOOTSTRAP_ALLOW_PROD=true to override (you almost certainly do not want this).";
        values = [];
      }))

-- The ids and the readings of the clock that the two steps use, by their purpose.
pub record UserSupply : Type 0 where
  pub user_id : Text
  pub salt : Text
  pub created : ℕ
  pub updated : ℕ
  pub activated : ℕ
  pub touched : ℕ
  pub loaded : ℕ
  pub loaded_again : ℕ

pub record OrganizationSupply : Type 0 where
  pub organization_id : Text
  pub correlation_id : Text
  pub default_project_id : Text
  pub provision_correlation_id : Text
  pub created : ℕ
  pub updated : ℕ
  pub created_event_id : Text
  pub created_event_time : ℕ
  pub provisioned : ℕ
  pub touched : ℕ
  pub provisioned_event_id : Text
  pub provisioned_event_time : ℕ

-- An id, and whether its entity was created.
pub record Provisioned : Type 0 where
  pub id : Text
  pub created : Bool

-- The user that the script asks for, activated without a verified email.
unfoldable pub new_admin : CaseMapping → Bcrypt → BootstrapConfig → UserSupply → Result User.User
new_admin case bcrypt cfg supply =
    bind
      (User.create case bcrypt
        (record {
          email = cfg.admin_email;
          password = cfg.admin_password;
          display_name = cfg.admin_name;
        })
        supply.user_id supply.salt supply.created supply.updated)
      (User.activate supply.activated supply.touched)

module _ (case : CaseMapping) (bcrypt : Bcrypt) (users : Repository user_column) where
  unfoldable pub provision_admin_user :
      BootstrapConfig → UserSupply → Action users.Table Provisioned
  unfolding new_admin
  provision_admin_user cfg supply = do
    existing ← find_by_email case users supply.loaded supply.loaded_again cfg.admin_email
    elim existing [
      | some user ↦ pure (record { id = user.id; created = false })
      | none ↦ do
        user ← lift (new_admin case bcrypt cfg supply)
        saved ← save case users supply.loaded supply.loaded_again user
        pure (record { id = saved.id; created = true })
    ]

-- The organization that the script asks for, moved straight to active.
unfoldable pub new_organization :
    CaseMapping → BootstrapConfig → Text → OrganizationSupply → Result Organization.Organization
new_organization case cfg owner_id supply =
    bind
      (Organization.create case
        (record {
          name = cfg.tenant_name;
          slug = cfg.tenant_slug;
          plan_tier = cfg.plan_tier;
          owner_id = owner_id;
          correlation_id = supply.correlation_id;
        })
        supply.organization_id supply.created supply.updated supply.created_event_id
        supply.created_event_time)
      (Organization.mark_provisioned supply.default_project_id supply.provision_correlation_id
        supply.provisioned supply.touched supply.provisioned_event_id supply.provisioned_event_time)

module _ (case : CaseMapping) (organizations : Repository organization_column) where
  unfoldable pub provision_organization :
      BootstrapConfig → Text → OrganizationSupply → Action organizations.Table Provisioned
  unfolding new_organization
  provision_organization cfg owner_id supply = do
    existing ← find_by_slug case organizations cfg.tenant_slug
    elim existing [
      | some org ↦ pure (record { id = org.id; created = false })
      | none ↦ do
        org ← lift (new_organization case cfg owner_id supply)
        saved ← provision case organizations org
        pure (record { id = saved.id; created = true })
    ]

pub record BootstrapOutcome : Type 0 where
  pub organization_id : Text
  pub organization_created : Bool
  pub user_id : Text
  pub user_created : Bool
  pub owner_linked : Bool

module _ (case : CaseMapping) (normalize : Text → Text) (bcrypt : Bcrypt)
    (users : Repository user_column) (organizations : Repository organization_column) where
  unfoldable pub run :
      Environment
      → UserSupply
      → OrganizationSupply
      → Action (users.Table × organizations.Table) BootstrapOutcome
  unfolding read_config guard_production provision_admin_user provision_organization
  run env user_supply organization_supply = do
    cfg ← lift (read_config case normalize env)
    lift (guard_production env)
    user ← on_first (provision_admin_user case bcrypt users cfg user_supply)
    organization ←
        on_second (provision_organization case organizations cfg user.id organization_supply)
    pure (record {
      organization_id = organization.id;
      organization_created = organization.created;
      user_id = user.id;
      user_created = user.created;
      owner_linked = true;
    })
