-- ===== src/Audit/Repository.antt =====
-- audit/infrastructure/persistence/audit-event.repository.ts. Pages are numbered from 1, so that no
-- page is skipped backwards.
pub mod Conditions
pub mod Listing
pub mod Log
use multi_tenant_saa_s_platf.Base.{
  ℕ, ◌-◌, ◌*◌, min, Bool, false, not, ◌&&◌, Option, none, some, List, [], ◌∷◌, map, Text, Result,
  ok, error, ◌===◌, if◌then◌else◌, get_or, throw_if, ◌>>◌ as andthen, leb, is_truthy, map_option,
}
use multi_tenant_saa_s_platf.Base.Actions.{Action, lift, reading, pure, ◌>>=◌, ◌>>◌}
use multi_tenant_saa_s_platf.Kernel.Context.{TenantContext}
use multi_tenant_saa_s_platf.Kernel.Pagination.{
  PaginationOptions, PaginatedResult, build_pagination_meta,
}
use multi_tenant_saa_s_platf.Kernel.Repository.{
  Repository, SelectQuery, and_where, scoped_where, scoped_qb, guard_tenant_ownership,
  require_tenant_id,
}
use multi_tenant_saa_s_platf.Audit.Event.{
  AuditEvent, AuditOutcome, AuditEventOrm, audit_column, to_domain, to_orm, outcome_value,
}

pub record AuditEventFilter : Type 0 where
  pub actor_id : Option Text
  pub action : Option Text
  pub resource_type : Option Text
  pub resource_id : Option Text
  pub outcome : Option AuditOutcome
  pub from_date : Option ℕ
  pub to_date : Option ℕ

-- `ae.x = :x`, on a column that may be null
abbrev pub equals : Option Text → Text → Bool
equals none v = false
equals (some x) v = x === v

-- `if (v) qb.andWhere('ae.x = :x', { x: v })`; the empty string sets no condition.
unfoldable pub and_equal :
    (AuditEventOrm → Option Text)
    → Option Text
    → SelectQuery AuditEventOrm
    → SelectQuery AuditEventOrm
unfolding and_where
and_equal column none qb = qb
and_equal column (some v) qb = if is_truthy v then and_where (λ e. equals (column e) v) qb else qb

-- `BETWEEN :from AND :to`, when both dates are given
unfoldable pub and_between :
    Option ℕ → Option ℕ → SelectQuery AuditEventOrm → SelectQuery AuditEventOrm
unfolding and_where
and_between (some from) (some to) qb =
    and_where (λ e. leb from e.occurred_at && leb e.occurred_at to) qb
and_between (some from) none qb = qb
and_between none to qb = qb

-- The conditions that `query` adds for its filter.
unfoldable pub narrowed : AuditEventFilter → SelectQuery AuditEventOrm → SelectQuery AuditEventOrm
unfolding and_equal and_between outcome_value
narrowed filter qb =
    let by_actor = and_equal (λ e. e.actor_id) filter.actor_id qb in
    let by_action = and_equal (λ e. some e.action) filter.action by_actor in
    let by_type = and_equal (λ e. some e.resource_type) filter.resource_type by_action in
    let by_resource = and_equal (λ e. some e.resource_id) filter.resource_id by_type in
    let by_outcome =
      and_equal (λ e. some (outcome_value e.outcome)) (map_option outcome_value filter.outcome)
        by_resource in
    and_between filter.from_date filter.to_date by_outcome

-- The loop of `appendBatch` over the events' tenants.
unfoldable pub check_tenants : Text → List AuditEvent → Result (Unit {0})
check_tenants tenant_id [] = ok tt
check_tenants tenant_id (e ∷ events) =
    andthen
      (throw_if (not (e.tenant_id === tenant_id)) (
        error (record {
          template = "AuditEventRepository.appendBatch: mixed tenantIds — expected {}, got {}";
          values = tenant_id ∷ e.tenant_id ∷ [];
        })))
      (check_tenants tenant_id events)

module _ (repo : Repository audit_column) (store : Option TenantContext) where
  unfoldable pub append : AuditEvent → Action repo.Table AuditEvent
  unfolding to_orm
  append event = do
    lift (guard_tenant_ownership store event.tenant_id)
    repo.insert (to_orm event ∷ [])
    pure event

  unfoldable pub append_batch : List AuditEvent → Action repo.Table (Unit {0})
  unfolding to_orm check_tenants
  append_batch [] = pure tt
  append_batch (e ∷ events) = do
    tenant_id ← lift (require_tenant_id store)
    lift (check_tenants tenant_id (e ∷ events))
    repo.insert (map to_orm (e ∷ events))

  module _ (now now' : ℕ) where
    unfoldable pub find_by_id : Text → Action repo.Table (Option AuditEvent)
    unfolding to_domain
    find_by_id id = do
      conditions ← lift (scoped_where store (("id", id) ∷ []))
      orm ← reading (repo.find_one conditions)
      pure (map_option (to_domain now now') orm)

    unfoldable pub query :
        AuditEventFilter → PaginationOptions → Action repo.Table (PaginatedResult AuditEvent)
    unfolding to_domain narrowed build_pagination_meta
    query filter options =
        let page = get_or options.page 1 in
        let limit = min (get_or options.limit 50) 200 in
        do
          qb ← lift (scoped_qb store audit_column)
          (orms, total) ← reading (
              repo.get_many_and_count (
                narrowed filter (record qb {
                  order_desc = some "occurredAt";
                  skip = (page - 1) * limit;
                  take = some limit;
                })))
          pure (record {
            items = map (to_domain now now') orms;
            meta = build_pagination_meta page limit total;
          })
