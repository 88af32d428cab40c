-- ===== src/Tests/Outbox.antt =====
-- The theorems on the outbox and the buses at concrete inputs.
use multi_tenant_saa_s_platf.Base.{
  ℕ, ◌+◌, ◌<◌, ◌≤◌, ◌≡◌, refl, none, some, List, [], ◌∷◌, ◌++◌, codes, ok, fail, Exception, error,
  All, arith, ◌===◌,
}
use multi_tenant_saa_s_platf.Base.Actions.{Action}
use multi_tenant_saa_s_platf.Kernel.Entity.{new_entity}
use multi_tenant_saa_s_platf.Kernel.Json.{end}
use multi_tenant_saa_s_platf.Kernel.Repository.{matches}
use multi_tenant_saa_s_platf.Events.Envelope.{TenantAwareEvent}
use multi_tenant_saa_s_platf.Events.Forwarding
use multi_tenant_saa_s_platf.Events.Forwarding.{entry_of, publish_batch}
use multi_tenant_saa_s_platf.Events.Forwarding.Relay.{append_all, publish_batch-append_all}
use multi_tenant_saa_s_platf.Events.Ingest.{IngestCommand}
use multi_tenant_saa_s_platf.Outbox.Entry.{
  OutboxEntry, create, reconstitute, pending, failed, mark_processed,
}
use multi_tenant_saa_s_platf.Outbox.Entry.Attempts.{
  IsSound, created, stepped, forwarded, entry-IsSound, refuse_all, refuse_all-status,
}
use multi_tenant_saa_s_platf.Outbox.Store.{
  OutboxEntryOrm, outbox_column, entry_status_value, find_pending, to_domain,
}
use multi_tenant_saa_s_platf.Outbox.Store.Memory.{outbox_memory, outbox_of}
use multi_tenant_saa_s_platf.Outbox.Processor.{process_batch}
use multi_tenant_saa_s_platf.Outbox.Processor.Batch.{
  offer_all, outcomes, save_all, AllAttempted, process_batch-split, process_batch-AllAttempted,
}
use multi_tenant_saa_s_platf.Tests.Fixtures.{acme, zoo, ann, log}

abbrev event : TenantAwareEvent
event = record {
  event_id = zoo;
  event_type = ann;
  event_version = 1;
  tenant_id = acme;
  correlation_id = zoo;
  actor_id = none;
  causation_id = some ann;
  trace_id = none;
  source_service = acme;
  source_version = none;
  occurred_at = 5;
  payload = end;
}

abbrev supply : Forwarding.Supply
supply = record { outbox_entry_id = ann; now = 6; updated = 7 }

abbrev row : OutboxEntryOrm
row = record {
  id = ann;
  event_id = zoo;
  event_type = ann;
  event_version = 1;
  tenant_id = acme;
  correlation_id = zoo;
  actor_id = none;
  causation_id = some ann;
  trace_id = none;
  source_service = acme;
  source_version = none;
  payload = end;
  status = pending;
  attempts = 0;
  last_error = none;
  occurred_at = 5;
  created_at = 6;
  processed_at = none;
}

abbrev entry : OutboxEntry
entry = record {
  base = record { id = ann; created_at = 6; updated_at = 8 };
  event_id = zoo;
  event_type = ann;
  event_version = 1;
  tenant_id = acme;
  correlation_id = zoo;
  actor_id = none;
  causation_id = some ann;
  trace_id = none;
  source_service = acme;
  source_version = none;
  payload = end;
  status = pending;
  attempts = 0;
  last_error = none;
  occurred_at = 5;
  processed_at = none;
}

abbrev down : Exception
down = error (record { template = "down"; values = [] })

-- A backbone that keeps the commands and refuses each of them.
abbrev refusing : IngestCommand → Action (List IngestCommand) (Unit {0})
refusing command s = (fail down, command ∷ s)

abbrev ticks : ℕ → ℕ
ticks i = 100 + i

found_row :
    (find_pending outbox_memory 50 8
      (outbox_of (row ∷ record row { id = zoo; status = failed } ∷ []))).0
    ≡ ok (entry ∷ [])
unfolding find_pending outbox_memory outbox_of matches outbox_column entry_status_value codes ◌===◌
    to_domain reconstitute new_entity
found_row = refl

abbrev table : outbox_memory.Table
table = outbox_of (row ∷ record row { id = zoo; status = failed } ∷ [])

process_batch-split_example :
    process_batch outbox_memory refusing (λ e. zoo) ticks 8 (table, []) ≡ (
      ok tt,
      (
        save_all outbox_memory refusing
            (λ e. zoo)
            (outcomes outbox_memory refusing (λ e. zoo) ticks 0 (entry ∷ []) [])
            table,
        offer_all outbox_memory refusing (λ e. zoo) (entry ∷ []) [],
      ),
    )
process_batch-split_example =
    (process_batch-split outbox_memory refusing (λ e. zoo) ticks 8 table []).0 (entry ∷ [])
      found_row

process_batch-AllAttempted_example :
    (1 ≤ 50)
    × All (λ e. e.status ≡ pending) (entry ∷ [])
    × ((after : List OutboxEntry) × (c' : List IngestCommand) × AllAttempted outbox_memory refusing
          (λ e. zoo)
          (entry ∷ [])
          after
          []
          c'
        × (process_batch outbox_memory refusing (λ e. zoo) ticks 8 (table, [])
            ≡ (ok tt, (save_all outbox_memory refusing (λ e. zoo) after table, c'))))
process_batch-AllAttempted_example =
    process_batch-AllAttempted outbox_memory refusing (λ e. zoo) ticks 8 table [] (entry ∷ [])
      found_row

entry-IsSound_example : IsSound 5 (mark_processed 9 (entry_of supply event))
unfolding entry_of Forwarding.params_of create reconstitute
entry-IsSound_example = entry-IsSound 5 (mark_processed 9 (entry_of supply event)) (omega arith) (
    stepped (entry_of supply event) _ (created (Forwarding.params_of event) ann 6 7)
      (forwarded (entry_of supply event) 9))

refuse_all-status_example :
    (0 + 5 < 5 → (refuse_all 5 (ann ∷ ann ∷ ann ∷ ann ∷ zoo ∷ []) entry).status ≡ pending)
    × (5 ≤ 0 + 5 → (refuse_all 5 (ann ∷ ann ∷ ann ∷ ann ∷ zoo ∷ []) entry).status ≡ failed)
refuse_all-status_example =
    refuse_all-status 5 (ann ∷ ann ∷ ann ∷ ann ∷ zoo ∷ []) entry refl (omega arith)

publish_batch-append_all_example :
    publish_batch log
      (λ es s. (ok tt, es ++ s))
      outbox_memory
      (λ i. supply)
      (event ∷ event ∷ [])
      ([], outbox_of [])
    ≡ (
      ok tt,
      (
        event ∷ event ∷ [],
        append_all outbox_memory (λ i. supply) 0 (event ∷ event ∷ []) (outbox_of []),
      ),
    )
publish_batch-append_all_example =
    (publish_batch-append_all log (λ es s. (ok tt, es ++ s)) outbox_memory (λ i. supply)
        (event ∷ event ∷ []) [] (outbox_of [])).1
      refl
