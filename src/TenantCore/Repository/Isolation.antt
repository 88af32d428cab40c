-- ===== src/TenantCore/Repository/Isolation.antt =====
-- The organizations that a request can reach through organization.repository.ts.
use multi_tenant_saa_s_platf.Base.{
  ◌≡◌, refl, ap, ◌∙◌, true, inl, inr, Option, none, some, [], ◌∷◌, Text, ok, fail, arith,
  CaseMapping, Result-cases, text_eq_iff, Exception,
}
use multi_tenant_saa_s_platf.Kernel.Context.{TenantContext}
use multi_tenant_saa_s_platf.Kernel.Repository.{Repository, guard_tenant_root, matches}
use multi_tenant_saa_s_platf.Kernel.Repository.Isolation.{ActsFor, guard_tenant_root_iff}
use multi_tenant_saa_s_platf.TenantCore.Organization.{Organization}
use multi_tenant_saa_s_platf.TenantCore.Organization.Mapper.{
  OrganizationOrm, to_domain, to_orm, to_domain_no_events,
}
use multi_tenant_saa_s_platf.TenantCore.Slug
use multi_tenant_saa_s_platf.TenantCore.Repository.{
  organization_column, load, find_by_id, save, provision,
}

module _ (case : CaseMapping) where
  to_domain-id :
      (orm : OrganizationOrm) (o : Organization) → to_domain case orm ≡ ok o → o.id ≡ orm.id
  unfolding to_domain
  to_domain-id orm o h = elim (Result-cases (Slug.create case orm.slug)) [
    | inl (slug, e) ↦ ground arith
    | inr (x, e) ↦ ground arith
  ]

  load-some :
      (found : Option OrganizationOrm) (o : Organization)
      → load case found ≡ ok (some o)
      → (orm : OrganizationOrm) × (found ≡ some orm) × (to_domain case orm ≡ ok o)
  unfolding load
  load-some none o h = cc
  load-some (some orm) o h = elim (Result-cases (to_domain case orm)) [
    | inl (o', e) ↦ (orm, refl, ground arith)
    | inr (x, e) ↦ ground arith
  ]

  column-id :
      (orm : OrganizationOrm) (id : Text)
      → matches organization_column (("id", id) ∷ []) orm ≡ true
      → orm.id ≡ id
  unfolding matches organization_column
  column-id orm id h = ground (arith, text_eq_iff orm.id id)

  module _ (repo : Repository organization_column) (store : Option TenantContext) where
    -- A lookup by id that finds an organization was made for that organization's own tenant, and
    -- gives the organization of that id. It never writes.
    pub find_by_id-own :
        (id : Text) (t t' : repo.Table) (o : Organization)
        → find_by_id case repo store id t ≡ (ok (some o), t')
        → ActsFor store id × (o.id ≡ id) × (t' ≡ t)
    unfolding find_by_id
    find_by_id-own id t t' o h = elim (Result-cases (guard_tenant_root store id)) [
      | inl (passed, g) ↦ elim (Result-cases (repo.find_one (("id", id) ∷ []) t)) [
        | inl (found, f) ↦
            let (orm, some_orm, loaded) = load-some found o (ground arith) in
            (
              (guard_tenant_root_iff store id).0 g,
              to_domain-id orm o loaded
                  ∙ column-id orm id
                      (repo.find_one_fits (("id", id) ∷ []) t orm (f ∙ ap ok some_orm)),
              ground arith,
            )
        | inr (x, f) ↦ ground arith
      ]
      | inr (x, g) ↦ ground arith
    ]

    pub save-own :
        (o o' : Organization) (t t' : repo.Table)
        → save case repo store o t ≡ (ok o', t')
        → ActsFor store o.id
    unfolding save
    save-own o o' t t' h = elim (Result-cases (guard_tenant_root store o.id)) [
      | inl (passed, g) ↦ (guard_tenant_root_iff store o.id).0 g
      | inr (x, g) ↦ ground arith
    ]

    pub save_foreign :
        (o : Organization) (t : repo.Table)
        → ¬ ActsFor store o.id
        → (x : Exception) × (save case repo store o t ≡ (fail x, t))
    unfolding save
    save_foreign o t foreign = elim (Result-cases (guard_tenant_root store o.id)) [
      | inl (passed, g) ↦ absurd (foreign ((guard_tenant_root_iff store o.id).0 g))
      | inr (x, g) ↦ (x, ground arith)
    ]

    save_provision :
        (o : Organization) (t : repo.Table)
        → ActsFor store o.id
        → save case repo store o t ≡ provision case repo o t
    unfolding save provision
    save_provision o t acts = let g = (guard_tenant_root_iff store o.id).1 acts in rw g refl

    -- Saving an organization is provisioning it, which no guard stands before, for a request that acts
    -- for the organization: any other save throws and leaves the table as it was.
    pub save_guarded :
        (o : Organization) (t : repo.Table)
        → (ActsFor store o.id → save case repo store o t ≡ provision case repo o t)
          × (¬ ActsFor store o.id → (x : Exception) × (save case repo store o t ≡ (fail x, t)))
    save_guarded o t = (save_provision o t, save_foreign o t)

    -- What a save gives back holds no domain events.
    pub save_no_events :
        (o o' : Organization) (t t' : repo.Table)
        → save case repo store o t ≡ (ok o', t')
        → o'.domain_events ≡ []
    unfolding save
    save_no_events o o' t t' h = elim (Result-cases (guard_tenant_root store o.id)) [
      | inl (passed, g) ↦ elim (Result-cases (repo.save (to_orm o) t).0) [
        | inl (orm, s) ↦ to_domain_no_events case orm o' (ground arith)
        | inr (x, s) ↦ ground arith
      ]
      | inr (x, g) ↦ ground arith
    ]

  pub provision_no_events :
      (repo : Repository organization_column) (o o' : Organization) (t t' : repo.Table)
      → provision case repo o t ≡ (ok o', t')
      → o'.domain_events ≡ []
  unfolding provision
  provision_no_events repo o o' t t' h = elim (Result-cases (repo.save (to_orm o) t).0) [
    | inl (orm, s) ↦ to_domain_no_events case orm o' (ground arith)
    | inr (x, s) ↦ ground arith
  ]
