-- ===== src/Outbox/Processor.antt =====
-- outbox/application/services/outbox-processor.service.ts. The state is the outbox's table and what
-- lies behind the client of the event backbone.
pub mod Batch
use multi_tenant_saa_s_platf.Base.{
  ℕ, suc, ◌+◌, Bool, true, false, Option, none, some, List, [], ◌∷◌, ◌++◌, Text, codes, Result, ok,
  fail, Exception,
}
use multi_tenant_saa_s_platf.Base.Actions.{Action}
use multi_tenant_saa_s_platf.Events.Ingest.{IngestCommand}
use multi_tenant_saa_s_platf.Outbox.Entry.{OutboxEntry, mark_processed, record_attempt_failure}
use multi_tenant_saa_s_platf.Outbox.Store.{OutboxTable, find_pending, save}

abbrev pub batch_size : ℕ
batch_size = 50

abbrev pub max_attempts : ℕ
max_attempts = 5

-- The object that `ingest` is given.
unfoldable pub command_of : OutboxEntry → IngestCommand
unfolding codes
command_of entry = record {
  stream_id = codes "platform." ++ entry.tenant_id ++ codes "." ++ entry.event_type;
  type = entry.event_type;
  source = entry.source_service;
  payload = entry.payload;
  metadata = some (("event_id", entry.event_id) ∷ ("tenant_id", entry.tenant_id) ∷ []);
  correlation_id = entry.correlation_id;
  actor_id = entry.actor_id;
  causation_id = entry.causation_id;
  trace_id = entry.trace_id;
  source_version = entry.source_version;
  event_version = some entry.event_version;
}

-- The client's `ingest`, and `(err as Error).message`.
module _ (repo : OutboxTable) {C : Type 0} (ingest : IngestCommand → Action C (Unit {0}))
    (message : Exception → Text) where
  -- The entry after its attempt.
  unfoldable pub after_attempt : ℕ → OutboxEntry → Result (Unit {0}) → OutboxEntry
  after_attempt now entry (ok tt) = mark_processed now entry
  after_attempt now entry (fail e) = record_attempt_failure (message e) max_attempts entry

  -- The body of the loop; a save that fails is logged only.
  unfoldable pub process_entry : ℕ → OutboxEntry → repo.Table × C → repo.Table × C
  unfolding command_of after_attempt
  process_entry now entry (t, c) =
      let (result, c') = ingest (command_of entry) c in
      let (saved, t') = save repo (after_attempt now entry result) t in (t', c')

  -- The loop; `clock` gives the reading at each of the entries' numbers.
  unfoldable pub process_entries : (ℕ → ℕ) → ℕ → List OutboxEntry → repo.Table × C → repo.Table × C
  unfolding process_entry
  process_entries clock i [] s = s
  process_entries clock i (entry ∷ entries) s =
      process_entries clock (suc i) entries (process_entry (clock i) entry s)

  -- `OutboxProcessorService.processBatch`
  unfoldable pub process_batch : (ℕ → ℕ) → ℕ → Action (repo.Table × C) (Unit {0})
  unfolding process_entries
  process_batch clock now (t, c) = elim ((find_pending repo batch_size now t).0) [
    | fail e ↦ (ok tt, (t, c))
    | ok entries ↦
        (ok tt, process_entries clock 0 entries ((find_pending repo batch_size now t).1, c))
  ]
