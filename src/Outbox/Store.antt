-- ===== src/Outbox/Store.antt =====
-- outbox/infrastructure/persistence: the row of an entry, and what the repository asks of TypeORM.
pub mod Memory
use text.Mathlib.Text.{◌==◌ as str_eq}
use multi_tenant_saa_s_platf.Base.{
  ℕ, ◌≤◌, ◌≡◌, refl, true, Option, List, [], ◌∷◌, map, Text, String, codes, Result, ok, fail,
  Exception, all, length, if◌then◌else◌,
}
use multi_tenant_saa_s_platf.Base.Actions.{Action, reading, ◌>>=◌, pure}
use multi_tenant_saa_s_platf.Kernel.Json.{Fields}
use multi_tenant_saa_s_platf.Kernel.Repository.{Where, matches}
use multi_tenant_saa_s_platf.Outbox.Entry.{
  OutboxEntry, OutboxEntryStatus, pending, processed, failed, reconstitute,
}

pub record OutboxEntryOrm : Type 0 where
  pub id : Text
  pub event_id : Text
  pub event_type : Text
  pub event_version : ℕ
  pub tenant_id : Text
  pub correlation_id : Text
  pub actor_id : Option Text
  pub causation_id : Option Text
  pub trace_id : Option Text
  pub source_service : Text
  pub source_version : Option Text
  pub payload : Fields
  pub status : OutboxEntryStatus
  pub attempts : ℕ
  pub last_error : Option Text
  pub occurred_at : ℕ
  pub created_at : ℕ
  pub processed_at : Option ℕ

unfoldable pub entry_status_value : OutboxEntryStatus → Text
unfolding codes
entry_status_value pending = codes "pending"
entry_status_value processed = codes "processed"
entry_status_value failed = codes "failed"

-- The text columns that a condition can name.
unfoldable pub outbox_column : String → OutboxEntryOrm → Text
unfolding entry_status_value
outbox_column k row =
    if str_eq k "status"
    then entry_status_value row.status
    else if str_eq k "eventId"
    then row.event_id
    else row.id

-- The options of `find`.
pub record FindOptions : Type 0 where
  pub conditions : Where
  pub order_asc : String
  pub take : ℕ

-- TypeORM's `Repository<OutboxEntryOrmEntity>`: the statements, which the database may reject.
pub record OutboxTable : Type 1 where
  pub Table : Type 0
  pub insert : OutboxEntryOrm → Action Table (Unit {0})
  pub find : FindOptions → Table → Result (List OutboxEntryOrm)
  pub save : OutboxEntryOrm → Action Table OutboxEntryOrm
  pub find_fits :
      (options : FindOptions) (t : Table) (found : List OutboxEntryOrm)
      → find options t ≡ ok found
      → all (matches outbox_column options.conditions) found ≡ true
  pub find_take :
      (options : FindOptions) (t : Table) (found : List OutboxEntryOrm)
      → find options t ≡ ok found
      → length found ≤ options.take
  pub save_rejected :
      (row : OutboxEntryOrm) (t t' : Table) (x : Exception) → save row t ≡ (fail x, t') → t' ≡ t
  pub insert_rejected :
      (row : OutboxEntryOrm) (t t' : Table) (x : Exception) → insert row t ≡ (fail x, t') → t' ≡ t

unfoldable pub to_domain : ℕ → OutboxEntryOrm → OutboxEntry
unfolding reconstitute
to_domain now orm =
    reconstitute
      (record {
        outbox_entry_id = orm.id;
        event_id = orm.event_id;
        event_type = orm.event_type;
        event_version = orm.event_version;
        tenant_id = orm.tenant_id;
        correlation_id = orm.correlation_id;
        actor_id = orm.actor_id;
        causation_id = orm.causation_id;
        trace_id = orm.trace_id;
        source_service = orm.source_service;
        source_version = orm.source_version;
        payload = orm.payload;
        status = orm.status;
        attempts = orm.attempts;
        last_error = orm.last_error;
        occurred_at = orm.occurred_at;
        created_at = orm.created_at;
        processed_at = orm.processed_at;
      })
      now

unfoldable pub to_orm : OutboxEntry → OutboxEntryOrm
to_orm entity = record {
  id = entity.id;
  event_id = entity.event_id;
  event_type = entity.event_type;
  event_version = entity.event_version;
  tenant_id = entity.tenant_id;
  correlation_id = entity.correlation_id;
  actor_id = entity.actor_id;
  causation_id = entity.causation_id;
  trace_id = entity.trace_id;
  source_service = entity.source_service;
  source_version = entity.source_version;
  payload = entity.payload;
  status = entity.status;
  attempts = entity.attempts;
  last_error = entity.last_error;
  occurred_at = entity.occurred_at;
  created_at = entity.created_at;
  processed_at = entity.processed_at;
}

module _ (repo : OutboxTable) where
  unfoldable pub append : OutboxEntry → Action repo.Table (Unit {0})
  unfolding to_orm
  append entry = repo.insert (to_orm entry)

  -- The last argument but the table is the clock at the time the rows are read.
  unfoldable pub find_pending : ℕ → ℕ → Action repo.Table (List OutboxEntry)
  unfolding to_domain codes
  find_pending limit now = do
    rows ← reading (
        repo.find (record {
          conditions = ("status", codes "pending") ∷ [];
          order_asc = "createdAt";
          take = limit;
        }))
    pure (map (to_domain now) rows)

  unfoldable pub save : OutboxEntry → Action repo.Table (Unit {0})
  unfolding to_orm
  save entry = do row ← repo.save (to_orm entry); pure tt

-- An entry comes back from its row as it was, but for the time of its last update, which no row
-- holds.
pub entry_to_domain-to_orm :
    (entry : OutboxEntry) (now : ℕ)
    → to_domain now (to_orm entry)
      ≡ record entry { base = record (entry.base) { updated_at = now } }
unfolding to_domain to_orm
entry_to_domain-to_orm entry now = refl
