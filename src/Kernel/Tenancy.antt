-- ===== src/Kernel/Tenancy.antt =====
-- The enumerations of libs/shared-kernel/src/types/tenant.types.ts, with their string values.
use multi_tenant_saa_s_platf.Base.{Text, codes}

pub data TenantPlanTier : Type 0 where
  free starter pro enterprise : TenantPlanTier

pub data TenantStatus : Type 0 where
  provisioning active suspended deprovisioning deleted : TenantStatus

pub data MembershipRole : Type 0 where
  owner admin member viewer : MembershipRole

unfoldable pub tier_value : TenantPlanTier → Text
unfolding codes
tier_value TenantPlanTier.free = codes "free"
tier_value TenantPlanTier.starter = codes "starter"
tier_value TenantPlanTier.pro = codes "pro"
tier_value TenantPlanTier.enterprise = codes "enterprise"

unfoldable pub status_value : TenantStatus → Text
unfolding codes
status_value provisioning = codes "provisioning"
status_value active = codes "active"
status_value suspended = codes "suspended"
status_value deprovisioning = codes "deprovisioning"
status_value deleted = codes "deleted"

unfoldable pub role_value : MembershipRole → Text
unfolding codes
role_value owner = codes "owner"
role_value admin = codes "admin"
role_value member = codes "member"
role_value viewer = codes "viewer"
