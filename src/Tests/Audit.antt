-- ===== src/Tests/Audit.antt =====
-- The theorems on the audit log at concrete inputs.
use multi_tenant_saa_s_platf.Base.{
  ◌≡◌, ◌↔◌, ◌≤◌, refl, Bool, true, none, some, List, [], ◌∷◌, ◌++◌, map, Text, fail, Exception,
  ◌===◌, All, keep, length,
}
use multi_tenant_saa_s_platf.Kernel.Context.{try_get_tenant_id}
use multi_tenant_saa_s_platf.Kernel.Entity.{new_entity}
use multi_tenant_saa_s_platf.Kernel.Json.{end}
use multi_tenant_saa_s_platf.Kernel.Pagination.{build_pagination_meta}
use multi_tenant_saa_s_platf.Kernel.Repository.{
  require_tenant_id, scoped_qb, where_only, and_where, create_query_builder, fits,
}
use multi_tenant_saa_s_platf.Kernel.Repository.Isolation.{ActsFor}
use multi_tenant_saa_s_platf.Kernel.Repository.Memory.{memory, holding, run_query, window}
use multi_tenant_saa_s_platf.Audit.Event.{
  AuditEvent, AuditEventOrm, user, success, audit_column, to_domain, to_orm, reconstitute,
  outcome_value,
}
use multi_tenant_saa_s_platf.Audit.Repository.{
  AuditEventFilter, append, append_batch, check_tenants, query, narrowed, and_equal, and_between,
}
use multi_tenant_saa_s_platf.Audit.Repository.Conditions.{IsListed}
use multi_tenant_saa_s_platf.Audit.Repository.Listing.{query-IsListed}
use multi_tenant_saa_s_platf.Audit.Repository.Log.{Grown, append-find_by_id, append_batch-Grown}
use multi_tenant_saa_s_platf.Audit.Recording.{RecordAuditEventCommand, Supply}
use multi_tenant_saa_s_platf.Audit.Recording.Outcomes.{Ends, execute_record-cases}
use multi_tenant_saa_s_platf.Tests.Fixtures.{acme, zoo, ann, ctx_of, log, zoo_foreign}

abbrev row_of : Text → Text → AuditEventOrm
row_of tenant action = record {
  id = zoo;
  tenant_id = tenant;
  actor_id = some ann;
  actor_type = user;
  action = action;
  resource_type = ann;
  resource_id = zoo;
  outcome = success;
  metadata = end;
  correlation_id = [];
  ip_address = none;
  user_agent = none;
  occurred_at = 5;
}

abbrev rows : List AuditEventOrm
rows = row_of acme ann ∷ row_of zoo ann ∷ row_of acme zoo ∷ []

-- Events of `ann` and of the action "ann", from the instant 9 on: the one date is ignored.
abbrev filter : AuditEventFilter
filter = record {
  actor_id = some ann;
  action = some ann;
  resource_type = none;
  resource_id = some [];
  outcome = some success;
  from_date = some 9;
  to_date = none;
}

query-IsListed_example :
    (tenant : Text) × ActsFor (some (ctx_of acme)) tenant
    × All (IsListed tenant filter) (to_domain 8 9 (row_of acme ann) ∷ [])
    × (200 ≤ 200)
    × ((p : AuditEventOrm → Bool)
        → ((e : AuditEventOrm) → (p e ≡ true) ↔ IsListed tenant filter (to_domain 8 9 e))
        → 1 ≡ length (keep p rows))
    × (rows ≡ rows)
unfolding query narrowed and_equal and_between scoped_qb where_only and_where create_query_builder
    require_tenant_id try_get_tenant_id memory run_query window fits audit_column ◌===◌ to_domain
    reconstitute new_entity build_pagination_meta outcome_value
query-IsListed_example =
    query-IsListed (memory audit_column) (some (ctx_of acme)) 8 9 filter
      (record { page = none; limit = some 500 }) rows rows
      (record {
        items = to_domain 8 9 (row_of acme ann) ∷ [];
        meta = build_pagination_meta 1 200 1;
      })
      refl

abbrev event : AuditEvent
event = record {
  base = record { id = zoo; created_at = 1; updated_at = 2 };
  tenant_id = acme;
  actor_id = none;
  actor_type = user;
  action = ann;
  resource_type = ann;
  resource_id = zoo;
  outcome = success;
  metadata = end;
  correlation_id = [];
  ip_address = none;
  user_agent = none;
  occurred_at = 5;
}

append-find_by_id_example :
    (x : Exception) × (append
        (memory audit_column)
        (some (ctx_of acme))
        (record event { tenant_id = zoo })
        (holding audit_column rows)
      ≡ (fail x, holding audit_column rows))
append-find_by_id_example =
    (append-find_by_id (memory audit_column) (some (ctx_of acme)) (record event { tenant_id = zoo })
        (holding audit_column rows)).1
      zoo_foreign

append_batch-Grown_example :
    All (λ e. ActsFor (some (ctx_of acme)) e.tenant_id) (event ∷ event ∷ [])
    × Grown
        (memory audit_column)
        (some (ctx_of acme))
        (event ∷ event ∷ [])
        (holding audit_column rows)
        (holding audit_column (rows ++ map to_orm (event ∷ event ∷ [])))
unfolding holding append_batch check_tenants require_tenant_id try_get_tenant_id memory ◌===◌ to_orm
append_batch-Grown_example =
    (append_batch-Grown (memory audit_column) (some (ctx_of acme)) (event ∷ event ∷ [])
        (holding audit_column rows)
        (holding audit_column (rows ++ map to_orm (event ∷ event ∷ [])))).0
      refl

abbrev command : RecordAuditEventCommand
command = record {
  tenant_id = acme;
  correlation_id = [];
  actor_id = none;
  actor_type = user;
  action = ann;
  resource_type = ann;
  resource_id = zoo;
  outcome = success;
  metadata = end;
  ip_address = none;
  user_agent = none;
}

abbrev supply : Supply
supply = record { audit_event_id = zoo; occurred = 5; created = 6; updated = 7 }

execute_record-cases_example :
    Ends
      (memory audit_column)
      log
      (some (ctx_of acme))
      command
      supply
      (holding audit_column rows)
      []
execute_record-cases_example =
    execute_record-cases (memory audit_column) log (some (ctx_of acme)) command supply
      (holding audit_column rows) []
