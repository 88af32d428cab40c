-- ===== src/TenantCore/Organization/Mapper.antt =====
-- tenant-core/infrastructure/persistence/organization.mapper.ts and organization.orm-entity.ts
use multi_tenant_saa_s_platf.Base.{
  ℕ, ◌≡◌, Option, some, [], Text, Result, ok, arith, CaseMapping, ◌>>=◌, Result-cases, inl, inr,
}
use multi_tenant_saa_s_platf.Kernel.Tenancy.{TenantPlanTier, TenantStatus}
use multi_tenant_saa_s_platf.TenantCore.Plan.{for_tier}
use multi_tenant_saa_s_platf.TenantCore.Slug
use multi_tenant_saa_s_platf.TenantCore.Organization.{
  Organization, OrganizationSettings, reconstitute, clear_domain_events,
}
use multi_tenant_saa_s_platf.TenantCore.Organization.Lifecycle.{IsSound}

pub record OrganizationOrm : Type 0 where
  pub id : Text
  pub name : Text
  pub slug : Text
  pub plan_tier : TenantPlanTier
  pub status : TenantStatus
  pub owner_id : Text
  pub provisioned_at : Option ℕ
  pub settings : OrganizationSettings
  pub created_at : ℕ
  pub updated_at : ℕ

-- Both dates are given, so the constructor does not read the clock.
unfoldable pub to_domain : CaseMapping → OrganizationOrm → Result Organization
unfolding reconstitute
to_domain case orm = do
  slug ← Slug.create case orm.slug
  ok (
      reconstitute
        (record {
          organization_id = orm.id;
          name = orm.name;
          slug = slug;
          plan = for_tier orm.plan_tier;
          status = orm.status;
          owner_id = orm.owner_id;
          provisioned_at = orm.provisioned_at;
          settings = orm.settings;
          created_at = some orm.created_at;
          updated_at = some orm.updated_at;
        })
        0 0)

unfoldable pub to_orm : Organization → OrganizationOrm
to_orm domain = record {
  id = domain.id;
  name = domain.name;
  slug = domain.slug.value;
  plan_tier = domain.plan.tier;
  status = domain.status;
  owner_id = domain.owner_id;
  provisioned_at = domain.provisioned_at;
  settings = domain.settings;
  created_at = domain.created_at;
  updated_at = domain.updated_at;
}

-- An organization whose plan and slug are sound comes back from its row as it was, but for its
-- domain events: a row holds none, so they are gone.
pub organization_to_domain-to_orm :
    (case : CaseMapping) (o : Organization)
    → IsSound case o
    → to_domain case (to_orm o) ≡ ok (clear_domain_events o)
unfolding to_domain to_orm clear_domain_events
organization_to_domain-to_orm case o s = ground arith

-- What a row gives holds no domain events.
pub to_domain_no_events :
    (case : CaseMapping) (orm : OrganizationOrm) (o : Organization)
    → to_domain case orm ≡ ok o
    → o.domain_events ≡ []
unfolding to_domain
to_domain_no_events case orm o h = elim (Result-cases (Slug.create case orm.slug)) [
  | inl (slug, e) ↦ ground arith
  | inr (x, e) ↦ ground arith
]
