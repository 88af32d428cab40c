-- ===== src/TenantCore/Repository.antt =====
-- tenant-core/infrastructure/persistence/organization.repository.ts over TypeORM's repository.
pub mod Isolation
use text.Mathlib.Text.{◌==◌ as str_eq}
use multi_tenant_saa_s_platf.Base.{
  ℕ, Bool, Option, none, some, List, [], ◌∷◌, Text, String, Result, ok, fail, CaseMapping, ltb,
  ◌===◌, if◌then◌else◌,
}
use multi_tenant_saa_s_platf.Base.Actions.{Action, lift, reading, pure, ◌>>=◌, ◌>>◌}
use multi_tenant_saa_s_platf.Kernel.Context.{TenantContext}
use multi_tenant_saa_s_platf.Kernel.Repository.{
  Repository, guard_tenant_root, create_query_builder, where_only,
}
use multi_tenant_saa_s_platf.TenantCore.Organization.{Organization}
use multi_tenant_saa_s_platf.TenantCore.Organization.Mapper.{OrganizationOrm, to_domain, to_orm}

-- The text columns that a condition can name.
unfoldable pub organization_column : String → OrganizationOrm → Text
organization_column k o =
    if str_eq k "id"
    then o.id
    else if str_eq k "slug"
    then o.slug
    else if str_eq k "name"
    then o.name
    else o.owner_id

-- `orm ? this.mapper.toDomain(orm) : null`
unfoldable pub load : CaseMapping → Option OrganizationOrm → Result (Option Organization)
unfolding to_domain
load case none = ok none
load case (some orm) = elim (to_domain case orm) [ ok o ↦ ok (some o) | fail e ↦ fail e ]

module _ (case : CaseMapping) (repo : Repository organization_column)
    (store : Option TenantContext) where
  -- Tenant-context operations.
  unfoldable pub find_by_id : Text → Action repo.Table (Option Organization)
  find_by_id id = do
    lift (guard_tenant_root store id)
    orm ← reading (repo.find_one (("id", id) ∷ []))
    lift (load case orm)

  unfoldable pub save : Organization → Action repo.Table Organization
  save organization = do
    lift (guard_tenant_root store organization.id)
    saved ← repo.save (to_orm organization)
    lift (to_domain case saved)

  unfoldable pub exists_by_id : Text → Action repo.Table Bool
  exists_by_id id = do lift (guard_tenant_root store id); reading (repo.exists_by (("id", id) ∷ []))

-- System-context operations. Nothing reads the `SystemQueryContext` that they are handed.
module _ (case : CaseMapping) (repo : Repository organization_column) where
  unfoldable pub find_by_slug : Text → Action repo.Table (Option Organization)
  unfolding where_only create_query_builder
  find_by_slug slug = do
    orm ← reading (repo.get_one (where_only (λ o. o.slug === slug) create_query_builder))
    lift (load case orm)

  unfoldable pub find_by_owner_id : Text → Action repo.Table (Option Organization)
  unfolding where_only create_query_builder
  find_by_owner_id owner_id = do
    orm ← reading (repo.get_one (where_only (λ o. o.owner_id === owner_id) create_query_builder))
    lift (load case orm)

  unfoldable pub provision : Organization → Action repo.Table Organization
  provision organization = do saved ← repo.save (to_orm organization); lift (to_domain case saved)

module _ (repo : Repository organization_column) where
  unfoldable pub exists_by_slug : Text → Action repo.Table Bool
  unfolding where_only create_query_builder
  exists_by_slug slug = do
    count ← reading (repo.get_count (where_only (λ o. o.slug === slug) create_query_builder))
    pure (ltb 0 count)
