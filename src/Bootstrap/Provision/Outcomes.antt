-- ===== src/Bootstrap/Provision/Outcomes.antt =====
-- The outcomes of `run` of scripts/bootstrap-platform-admin.ts.
use multi_tenant_saa_s_platf.Base.{
  ℕ, ◌≡◌, inl, inr, ◌⊎◌, true, false, none, some, Text, ok, fail, Exception, arith, Result-cases,
  CaseMapping,
}
use multi_tenant_saa_s_platf.Kernel.Repository.{Repository}
use multi_tenant_saa_s_platf.Kernel.Tenancy.{active}
use multi_tenant_saa_s_platf.TenantCore.Slug
use multi_tenant_saa_s_platf.TenantCore.Organization
use multi_tenant_saa_s_platf.TenantCore.Organization.Mapper.{OrganizationOrm, to_orm, to_domain}
use multi_tenant_saa_s_platf.TenantCore.Repository.{organization_column, find_by_slug, provision}
use multi_tenant_saa_s_platf.Identity.Email
use multi_tenant_saa_s_platf.Identity.User
use multi_tenant_saa_s_platf.Identity.User.{Bcrypt}
use multi_tenant_saa_s_platf.Identity.UserRepository.{
  UserOrm, user_column, find_by_email, save, to_orm as to_row, to_domain as from_row,
}
use multi_tenant_saa_s_platf.Bootstrap.Provision.Readiness.{
  HasConfig, MayRun, read_config_iff, guard_production_iff,
}
use multi_tenant_saa_s_platf.Bootstrap.Provision.{
  Environment, BootstrapConfig, BootstrapOutcome, UserSupply, OrganizationSupply, Provisioned,
  read_config, guard_production, provision_admin_user, new_admin, new_organization,
  provision_organization, run,
}

-- The new organization is active and the owner's.
new_organization-owner :
    (case : CaseMapping) (cfg : BootstrapConfig) (owner : Text) (supply : OrganizationSupply)
    (org : Organization.Organization)
    → new_organization case cfg owner supply ≡ ok org
    → (org.owner_id ≡ owner) × (org.status ≡ active)
unfolding new_organization Organization.create Organization.mark_provisioned
    Organization.add_domain_event Organization.reconstitute
new_organization-owner case cfg owner supply org h =
    elim (Result-cases (Slug.create case cfg.tenant_slug)) [
      | inl (slug, e) ↦ (ground arith, ground arith)
      | inr (x, e) ↦ ground arith
    ]

new_admin_active :
    (case : CaseMapping) (bcrypt : Bcrypt) (cfg : BootstrapConfig) (supply : UserSupply)
    (user : User.User)
    → new_admin case bcrypt cfg supply ≡ ok user
    → user.status ≡ User.active
unfolding new_admin User.activate
new_admin_active case bcrypt cfg supply user h =
    elim (Result-cases (
      User.create case bcrypt
        (record {
          email = cfg.admin_email;
          password = cfg.admin_password;
          display_name = cfg.admin_name;
        })
        supply.user_id supply.salt supply.created supply.updated)) [
          | inl (made, e) ↦ ground arith
          | inr (x, e) ↦ ground arith
        ]

from_row_id :
    (case : CaseMapping) (row : UserOrm) (now now' : ℕ) (user : User.User)
    → from_row case row now now' ≡ ok user
    → user.id ≡ row.id
unfolding from_row User.reconstitute
from_row_id case row now now' user h = elim (Result-cases (Email.create case row.email)) [
  | inl (email, e) ↦ ground arith
  | inr (x, e) ↦ ground arith
]

module _ (case : CaseMapping) (bcrypt : Bcrypt) (users : Repository user_column) where
  -- An active user was saved, under this id.
  abbrev pub IsAdminSaved : users.Table → users.Table → Text → Type 0
  IsAdminSaved u u' id =
      (user : User.User) × (row : UserOrm) × (user.status ≡ User.active)
      × (id ≡ row.id)
      × (users.save (to_row user) u ≡ (ok row, u'))

  -- A user that is reused is not written, and one that is created was saved as active.
  admin_outcome :
      (cfg : BootstrapConfig) (supply : UserSupply) (u u' : users.Table) (p : Provisioned)
      → provision_admin_user case bcrypt users cfg supply u ≡ (ok p, u')
      → ((p.created ≡ false) × (u' ≡ u)) ⊎ ((p.created ≡ true) × IsAdminSaved u u' p.id)
  unfolding provision_admin_user find_by_email save
  admin_outcome cfg supply u u' p h =
      let found = find_by_email case users supply.loaded supply.loaded_again cfg.admin_email u in
      elim (Result-cases found.0) [
        | inl (some user, e) ↦ inl (ground arith, ground arith)
        | inl (none, e) ↦ elim (Result-cases (new_admin case bcrypt cfg supply)) [
          | inl (user, m) ↦
              let live = new_admin_active case bcrypt cfg supply user m in
              elim (Result-cases (users.save (to_row user) u).0) [
                | inl (row, s) ↦
                    elim (Result-cases (from_row case row supply.loaded supply.loaded_again)) [
                      | inl (saved, d) ↦
                          let same : saved.id ≡ row.id =
                            from_row_id case row supply.loaded supply.loaded_again saved d in
                          inr (ground arith, (user, row, live, ground arith, ground arith))
                      | inr (x, d) ↦ ground arith
                    ]
                | inr (x, s) ↦ ground arith
              ]
          | inr (x, m) ↦ ground arith
        ]
        | inr (x, e) ↦ ground arith
      ]

module _ (case : CaseMapping) (organizations : Repository organization_column) where
  -- An active organization was saved, with this owner.
  abbrev pub IsOwnedSaved : Text → organizations.Table → organizations.Table → Type 0
  IsOwnedSaved owner o o' =
      (org : Organization.Organization) × (row : OrganizationOrm) × (org.owner_id ≡ owner)
      × (org.status ≡ active)
      × (organizations.save (to_orm org) o ≡ (ok row, o'))

  -- An organization that is reused is not written, and one that is created was saved for the owner.
  organization_outcome :
      (cfg : BootstrapConfig) (owner : Text) (supply : OrganizationSupply)
      (o o' : organizations.Table) (p : Provisioned)
      → provision_organization case organizations cfg owner supply o ≡ (ok p, o')
      → ((p.created ≡ false) × (o' ≡ o)) ⊎ ((p.created ≡ true) × IsOwnedSaved owner o o')
  unfolding provision_organization find_by_slug provision
  organization_outcome cfg owner supply o o' p h =
      elim (Result-cases (find_by_slug case organizations cfg.tenant_slug o).0) [
        | inl (some org, e) ↦ inl (ground arith, ground arith)
        | inl (none, e) ↦ elim (Result-cases (new_organization case cfg owner supply)) [
          | inl (org, m) ↦
              let (own, live) = new_organization-owner case cfg owner supply org m in
              elim (Result-cases (organizations.save (to_orm org) o).0) [
                | inl (row, s) ↦ elim (Result-cases (to_domain case row)) [
                  | inl (saved, d) ↦ inr (ground arith, (org, row, own, live, ground arith))
                  | inr (x, d) ↦ ground arith
                ]
                | inr (x, s) ↦ ground arith
              ]
          | inr (x, m) ↦ ground arith
        ]
        | inr (x, e) ↦ ground arith
      ]

module _ (case : CaseMapping) (normalize : Text → Text) (bcrypt : Bcrypt)
    (users : Repository user_column) (organizations : Repository organization_column)
    (env : Environment) (user_supply : UserSupply) (organization_supply : OrganizationSupply)
    (u : users.Table) (o : organizations.Table) where
  -- Without the four variables, or in production without leave, the script throws and writes nothing. A run
  -- that succeeds found them; it leaves a table alone unless it says that it created the entity there;
  -- the user that it created was saved as active; and the organization that it created was saved as
  -- active and as owned by the user of the outcome.
  pub run-IsReady :
      (¬ (HasConfig env × MayRun env)
        → (x : Exception) × (run case normalize bcrypt users organizations env user_supply
              organization_supply
              (u, o)
            ≡ (fail x, (u, o))))
      × ((outcome : BootstrapOutcome) (u' : users.Table) (o' : organizations.Table)
          → run case normalize bcrypt users organizations env user_supply organization_supply (u, o)
            ≡ (ok outcome, (u', o'))
          → HasConfig env
            × MayRun env
            × (((outcome.user_created ≡ false) × (u' ≡ u))
                ⊎ ((outcome.user_created ≡ true)
                    × IsAdminSaved case bcrypt users u u' outcome.user_id))
            × (((outcome.organization_created ≡ false) × (o' ≡ o))
                ⊎ ((outcome.organization_created ≡ true)
                    × IsOwnedSaved case organizations outcome.user_id o o')))
  unfolding run
  run-IsReady = (
    λ unready. elim (Result-cases (read_config case normalize env)) [
      | inl (cfg, c) ↦ elim (Result-cases (guard_production env)) [
        | inl (tt, g) ↦ absurd (
            unready
              ((read_config_iff case normalize env).0 (cfg, c), (guard_production_iff env).0 g))
        | inr (x, g) ↦ (x, ground arith)
      ]
      | inr (x, c) ↦ (x, ground arith)
    ],
    λ outcome u' o' h. elim (Result-cases (read_config case normalize env)) [
      | inl (cfg, c) ↦ elim (Result-cases (guard_production env)) [
        | inl (tt, g) ↦
            let step1 = provision_admin_user case bcrypt users cfg user_supply u in
            elim (Result-cases step1.0) [
              | inl (user, p) ↦
                  let step2 =
                    provision_organization case organizations cfg user.id organization_supply o in
                  elim (Result-cases step2.0) [
                    | inl (organization, q) ↦
                        let first =
                          admin_outcome case bcrypt users cfg user_supply u u' user
                            (ground arith) in
                        let second =
                          organization_outcome case organizations cfg user.id organization_supply o
                            o' organization (ground arith) in
                        let same : user.id ≡ outcome.user_id = ground arith in
                        let made : user.created ≡ outcome.user_created = ground arith in
                        let made_there : organization.created ≡ outcome.organization_created =
                          ground arith in
                        (
                          (read_config_iff case normalize env).0 (cfg, c),
                          (guard_production_iff env).0 g,
                          rw (← made, ← same) first,
                          rw (← made_there, ← same) second,
                        )
                    | inr (x, q) ↦ ground arith
                  ]
              | inr (x, p) ↦ ground arith
            ]
        | inr (x, g) ↦ ground arith
      ]
      | inr (x, c) ↦ ground arith
    ],
  )
