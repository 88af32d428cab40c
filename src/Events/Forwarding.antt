-- ===== src/Events/Forwarding.antt =====
-- platform-events/adapters/forwarding.event-bus.ts, over an inner bus and the outbox. The state is
-- the inner bus and the outbox's table.
pub mod Relay
use multi_tenant_saa_s_platf.Base.{ℕ, suc, Option, none, List, [], ◌∷◌, Text, Result, ok, fail}
use multi_tenant_saa_s_platf.Base.Actions.{Action, ◌>>=◌, ◌>>◌, on_first, pure}
use multi_tenant_saa_s_platf.Events.Envelope.{TenantAwareEvent, EventBus}
use multi_tenant_saa_s_platf.Outbox.Entry.{OutboxEntry, CreateParams, create}
use multi_tenant_saa_s_platf.Outbox.Store.{OutboxTable, append}

-- The object that `writeToOutbox` creates an entry of.
unfoldable pub params_of : TenantAwareEvent → CreateParams
params_of event = record {
  event_id = event.event_id;
  event_type = event.event_type;
  event_version = event.event_version;
  tenant_id = event.tenant_id;
  correlation_id = event.correlation_id;
  actor_id = event.actor_id;
  causation_id = event.causation_id;
  trace_id = event.trace_id;
  source_service = event.source_service;
  source_version = event.source_version;
  payload = event.payload;
  occurred_at = event.occurred_at;
  last_error = none;
  processed_at = none;
}

-- The id and the readings of the clock that one entry takes.
pub record Supply : Type 0 where
  pub outbox_entry_id : Text
  pub now : ℕ
  pub updated : ℕ

unfoldable pub entry_of : Supply → TenantAwareEvent → OutboxEntry
unfolding params_of create
entry_of supply event = create (params_of event) supply.outbox_entry_id supply.now supply.updated

module _ (inner : EventBus) (inner_batch : List TenantAwareEvent → Action inner.State (Unit {0}))
    (repo : OutboxTable) where
  -- `writeToOutbox`: a write that fails is logged only.
  unfoldable pub write_to_outbox :
      Supply → TenantAwareEvent → Action (inner.State × repo.Table) (Unit {0})
  unfolding entry_of
  write_to_outbox supply event (b, t) = (ok tt, (b, (append repo (entry_of supply event) t).1))

  -- `ForwardingEventBus.publish`
  unfoldable pub publish : Supply → TenantAwareEvent → Action (inner.State × repo.Table) (Unit {0})
  unfolding write_to_outbox
  publish supply event = do on_first (inner.publish event); write_to_outbox supply event

  -- The loop of `publishBatch`; `supplies` gives what the event of each number takes.
  unfoldable pub write_all :
      (ℕ → Supply) → ℕ → List TenantAwareEvent → Action (inner.State × repo.Table) (Unit {0})
  unfolding write_to_outbox
  write_all supplies i [] = pure tt
  write_all supplies i (event ∷ events) =
      write_to_outbox (supplies i) event >> write_all supplies (suc i) events

  -- `ForwardingEventBus.publishBatch`
  unfoldable pub publish_batch :
      (ℕ → Supply) → List TenantAwareEvent → Action (inner.State × repo.Table) (Unit {0})
  unfolding write_all
  publish_batch supplies events = do on_first (inner_batch events); write_all supplies 0 events
