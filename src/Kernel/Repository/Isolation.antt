-- ===== src/Kernel/Repository/Isolation.antt =====
-- The tenants that the guards of tenant-aware.repository.ts let through.
use multi_tenant_saa_s_platf.Base.{
  ◌≡◌, ◌↔◌, ◌≢◌, true, false, Option, none, some, [], ◌∷◌, ◌++◌, Text, String, ok, arith,
  text_eq_iff,
}
use multi_tenant_saa_s_platf.Kernel.Context.{TenantContext}
use multi_tenant_saa_s_platf.Kernel.Repository.{
  Where, has_key, spread, matches, require_tenant_id, scoped_where, guard_tenant_ownership,
  guard_tenant_root,
}

-- The tenant that a request acts for: its context is there and names a tenant.
abbrev pub ActsFor : Option TenantContext → Text → Type 0
ActsFor none t = ⊥
ActsFor (some ctx) t = (ctx.tenant_id ≡ t) × (t ≢ [])

pub require_tenant_id_iff :
    (store : Option TenantContext) (t : Text) → (require_tenant_id store ≡ ok t) ↔ ActsFor store t
unfolding require_tenant_id
require_tenant_id_iff none t = ground arith
require_tenant_id_iff (some ctx) t = ground arith

-- The tenant's guard on writes passes exactly when the request acts for the owner of the entity.
pub guard_tenant_ownership_iff :
    (store : Option TenantContext) (owner : Text)
    → (guard_tenant_ownership store owner ≡ ok tt) ↔ ActsFor store owner
unfolding guard_tenant_ownership require_tenant_id
guard_tenant_ownership_iff none owner = ground arith
guard_tenant_ownership_iff (some ctx) owner = ground (arith, text_eq_iff owner ctx.tenant_id)

-- The guard on the tenant's own root passes exactly when the request acts for that organization.
pub guard_tenant_root_iff :
    (store : Option TenantContext) (id : Text)
    → (guard_tenant_root store id ≡ ok tt) ↔ ActsFor store id
unfolding guard_tenant_root require_tenant_id
guard_tenant_root_iff none id = ground arith
guard_tenant_root_iff (some ctx) id = ground (arith, text_eq_iff id ctx.tenant_id)

module _ {E : Type 0} (column : String → E → Text) (e : E) where
  matches-append :
      (v w : Where)
      → (matches column (v ++ w) e ≡ true)
        ↔ ((matches column v e ≡ true) × (matches column w e ≡ true))
  unfolding matches
  matches-append [] w = ground arith
  matches-append (c ∷ v) w = ground (arith, matches-append v w)

  -- A row fits a scoped condition exactly when it belongs to the active tenant and fits the extra
  -- condition, provided that the extra condition does not itself set the tenant's column.
  pub scoped_where_iff :
      (store : Option TenantContext) (extra w : Where) (t : Text)
      → ActsFor store t
      → has_key "tenantId" extra ≡ false
      → scoped_where store extra ≡ ok w
      → (matches column w e ≡ true) ↔ ((column "tenantId" e ≡ t) × (matches column extra e ≡ true))
  unfolding scoped_where require_tenant_id spread matches
  scoped_where_iff none extra w t a h s = absurd a
  scoped_where_iff (some ctx) extra w t a h s =
      ground (arith, text_eq_iff (column "tenantId" e) ctx.tenant_id)

-- A row that fits the scoped condition on an id is of the tenant that the request acts for.
pub scoped_id :
    {E : Type 0} (column : String → E → Text) (store : Option TenantContext) (id : Text)
    (conditions : Where) (e : E)
    → scoped_where store (("id", id) ∷ []) ≡ ok conditions
    → matches column conditions e ≡ true
    → ActsFor store (column "tenantId" e) × (column "id" e ≡ id)
unfolding scoped_where require_tenant_id spread matches
scoped_id column none id conditions e h m = ground arith
scoped_id column (some ctx) id conditions e h m =
    ground (arith, text_eq_iff (column "tenantId" e) ctx.tenant_id, text_eq_iff (column "id" e) id)
