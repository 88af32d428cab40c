-- ===== src/TenantCore/Plan.antt =====
-- tenant-core/domain/value-objects/tenant-plan.vo.ts
use multi_tenant_saa_s_platf.Base.{ℕ, ◌≤◌, ◌≡◌, Bool, true, ltb, arith}
use multi_tenant_saa_s_platf.Kernel.Tenancy.{TenantPlanTier, free, starter, pro, enterprise}

pub record TenantPlan : Type 0 where
  pub tier : TenantPlanTier
  pub max_projects : ℕ
  pub max_members : ℕ
  pub max_api_keys : ℕ
  pub audit_retention_days : ℕ

-- `forTier`, with the rows of `PLAN_DEFAULTS`
unfoldable pub for_tier : TenantPlanTier → TenantPlan
for_tier free = record {
  tier = free;
  max_projects = 1;
  max_members = 3;
  max_api_keys = 2;
  audit_retention_days = 30;
}
for_tier starter = record {
  tier = starter;
  max_projects = 5;
  max_members = 10;
  max_api_keys = 10;
  audit_retention_days = 90;
}
for_tier pro = record {
  tier = pro;
  max_projects = 25;
  max_members = 50;
  max_api_keys = 50;
  audit_retention_days = 365;
}
for_tier enterprise = record {
  tier = enterprise;
  max_projects = 1000;
  max_members = 10000;
  max_api_keys = 1000;
  audit_retention_days = 2555;
}

pub can_add_project : ℕ → TenantPlan → Bool
can_add_project current_count plan = ltb current_count plan.max_projects

pub can_add_member : ℕ → TenantPlan → Bool
can_add_member current_count plan = ltb current_count plan.max_members

-- The order of the tiers.
abbrev pub tier_rank : TenantPlanTier → ℕ
tier_rank free = 0
tier_rank starter = 1
tier_rank pro = 2
tier_rank enterprise = 3

-- What a plan admits, every plan of a higher tier admits too: a further project and a further
-- member at the same count.
pub can_add_upgrade :
    (low high : TenantPlanTier) (current_count : ℕ)
    → tier_rank low ≤ tier_rank high
    → (can_add_project current_count (for_tier low) ≡ true
        → can_add_project current_count (for_tier high) ≡ true)
      × (can_add_member current_count (for_tier low) ≡ true
          → can_add_member current_count (for_tier high) ≡ true)
unfolding for_tier can_add_project can_add_member
can_add_upgrade low high current_count h = ground arith
