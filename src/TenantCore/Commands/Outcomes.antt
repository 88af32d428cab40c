-- ===== src/TenantCore/Commands/Outcomes.antt =====
-- The refusals of the handlers, and what the check of a slug's uniqueness sees.
use multi_tenant_saa_s_platf.Base.{
  ◌≡◌, refl, ◌≢◌, inl, inr, Option, some, List, [], ◌∷◌, Text, ok, fail, Exception, arith,
  CaseMapping, Result-cases, Bool-cases, false, Bool, keep, text_eq_iff, All, ap, ◌===◌,
}
use multi_tenant_saa_s_platf.Kernel.Context.{TenantContext}
use multi_tenant_saa_s_platf.Kernel.Repository.{
  Repository, guard_tenant_root, fits, where_only, create_query_builder,
}
use multi_tenant_saa_s_platf.Kernel.Repository.Isolation.{ActsFor, guard_tenant_root_iff}
use multi_tenant_saa_s_platf.Kernel.Tenancy.{active}
use multi_tenant_saa_s_platf.Events.Envelope.{EventBus}
use multi_tenant_saa_s_platf.TenantCore.Slug
use multi_tenant_saa_s_platf.TenantCore.Slug.{TenantSlug}
use multi_tenant_saa_s_platf.TenantCore.Organization.{Organization, suspend, bad_status}
use multi_tenant_saa_s_platf.TenantCore.Organization.Mapper.{OrganizationOrm}
use multi_tenant_saa_s_platf.TenantCore.Repository.{organization_column, find_by_id, exists_by_slug}
use multi_tenant_saa_s_platf.TenantCore.Repository.Isolation.{find_by_id-own}
use multi_tenant_saa_s_platf.TenantCore.Commands.{
  SuspendOrganizationCommand, UpdateOrganizationCommand, Supply, require_organization,
  execute_suspend, execute_update,
}

module _ (case : CaseMapping) (repo : Repository organization_column) (bus : EventBus)
    (store : Option TenantContext) (supply : Supply) (t : repo.Table) (b : bus.State) where
  require_foreign :
      (id : Text)
      → ¬ ActsFor store id
      → (x : Exception) × (require_organization case repo bus store id (t, b) ≡ (fail x, (t, b)))
  unfolding require_organization find_by_id
  require_foreign id foreign = elim (Result-cases (guard_tenant_root store id)) [
    | inl (passed, g) ↦ absurd (foreign ((guard_tenant_root_iff store id).0 g))
    | inr (x, g) ↦ (x, ground arith)
  ]

  -- A request that does not act for the organization which it names can neither suspend nor update
  -- it: both handlers throw, and the table and the bus stay as they were.
  pub foreign_command_refused :
      (suspension : SuspendOrganizationCommand) (update : UpdateOrganizationCommand)
      → (¬ ActsFor store suspension.organization_id
          → (x : Exception) × (execute_suspend case repo bus store suspension supply (t, b)
              ≡ (fail x, (t, b))))
        × (¬ ActsFor store update.organization_id
            → (x : Exception) × (execute_update case repo bus store update supply (t, b)
                ≡ (fail x, (t, b))))
  unfolding execute_suspend execute_update
  foreign_command_refused suspension update = (
    λ f. let (x, e) = require_foreign suspension.organization_id f in (x, ground arith),
    λ f. let (x, e) = require_foreign update.organization_id f in (x, ground arith),
  )

  -- Suspending an organization that is found and is not active throws the conflict which names its
  -- status, and the table and the bus stay as they were.
  pub suspend_inactive_refused :
      (command : SuspendOrganizationCommand) (o : Organization)
      → (find_by_id case repo store command.organization_id t).0 ≡ ok (some o)
      → o.status ≢ active
      → execute_suspend case repo bus store command supply (t, b)
        ≡ (fail (bad_status "Cannot suspend organization in status: {}" o.status), (t, b))
  unfolding execute_suspend require_organization suspend
  suspend_inactive_refused command o found inactive =
      let t' = (find_by_id case repo store command.organization_id t).1 in
      ground
        (arith, find_by_id-own case repo store command.organization_id t t' o (λ i. (found i, t')))

module _ (case : CaseMapping) where
  -- The slug of a row is one that `TenantSlug.create` has made.
  abbrev pub HasSlug : OrganizationOrm → Type 0
  HasSlug orm = Slug.create case orm.slug ≡ ok (record { value = orm.slug })

  keep-none :
      (raw : Text) (slug : TenantSlug) (rows : List OrganizationOrm)
      → Slug.create case raw ≡ ok slug
      → slug.value ≢ raw
      → All HasSlug rows
      → keep (fits ((λ (o : OrganizationOrm). o.slug === raw) ∷ [])) rows ≡ []
  unfolding fits
  keep-none raw slug [] made other h = refl
  keep-none raw slug (o ∷ rows) made other h =
      let rest = keep-none raw slug rows made other h.1 in
      elim (Bool-cases (o.slug === raw)) [
        | inl same ↦
            let e : o.slug ≡ raw = (text_eq_iff o.slug raw).0 same in
            absurd (other (cc (h.0, ap (Slug.create case) e)))
        | inr differs ↦ ground arith
      ]

  -- In a table whose slugs were all created by the value object: for a text from which a slug is
  -- created that differs from the text, as it does with a capital letter or white space at an
  -- end, the check for a slug that is taken reports it as free, if it answers at all, also where
  -- the table holds that very slug.
  pub exists_by_slug-blind :
      (repo : Repository organization_column) (raw : Text) (slug : TenantSlug) (t t' : repo.Table)
      (taken : Bool)
      → All HasSlug (repo.rows t)
      → Slug.create case raw ≡ ok slug
      → slug.value ≢ raw
      → exists_by_slug repo raw t ≡ (ok taken, t')
      → taken ≡ false
  unfolding exists_by_slug
  exists_by_slug-blind repo raw slug t t' taken h made other e =
      elim (Result-cases (
        repo.get_count (where_only (λ (o : OrganizationOrm). o.slug === raw) create_query_builder)
          t)) [
            | inl (n, counted) ↦ ground (
              arith,
              repo.count_rows
                  (where_only (λ (o : OrganizationOrm). o.slug === raw) create_query_builder) t n
                  counted,
              keep-none raw slug (repo.rows t) made other h,
            )
            | inr (x, failed) ↦ ground arith
          ]
