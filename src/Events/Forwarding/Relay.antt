-- ===== src/Events/Forwarding/Relay.antt =====
-- What of a published event reaches the outbox and, from there, the event backbone.
use multi_tenant_saa_s_platf.Base.{
  ℕ, suc, ◌≡◌, refl, inl, inr, some, List, [], ◌∷◌, ◌++◌, codes, ok, fail, Exception, arith,
  Result-cases,
}
use multi_tenant_saa_s_platf.Base.Actions.{Action}
use multi_tenant_saa_s_platf.Events.Envelope.{TenantAwareEvent, EventBus}
use multi_tenant_saa_s_platf.Events.Forwarding.{
  Supply, entry_of, write_to_outbox, publish, write_all, publish_batch,
}
use multi_tenant_saa_s_platf.Outbox.Store.{OutboxTable, append, to_orm, to_domain}
use multi_tenant_saa_s_platf.Outbox.Processor.{command_of}

-- The rows that a batch adds, one for each event and in their order.
pub append_all :
    (repo : OutboxTable) → (ℕ → Supply) → ℕ → List TenantAwareEvent → repo.Table → repo.Table
append_all repo supplies i [] t = t
append_all repo supplies i (event ∷ events) t =
    append_all repo supplies (suc i) events (append repo (entry_of (supplies i) event) t).1

module _ (inner : EventBus) (inner_batch : List TenantAwareEvent → Action inner.State (Unit {0}))
    (repo : OutboxTable) where
  write_all-append_all :
      (supplies : ℕ → Supply) (i : ℕ) (events : List TenantAwareEvent) (b : inner.State)
      (t : repo.Table)
      → write_all inner inner_batch repo supplies i events (b, t)
        ≡ (ok tt, (b, append_all repo supplies i events t))
  unfolding write_all append_all
  write_all-append_all supplies i [] b t = refl
  write_all-append_all supplies i (e ∷ events) b t =
      write_all-append_all supplies (suc i) events b (append repo (entry_of (supplies i) e) t).1

  -- A batch that the inner bus refuses leaves the outbox as it was, and its error is thrown. One that
  -- it accepts never fails, and one row is offered to the outbox for each event, in their order.
  pub publish_batch-append_all :
      (supplies : ℕ → Supply) (events : List TenantAwareEvent) (b : inner.State) (t : repo.Table)
      → ((x : Exception)
          → (inner_batch events b).0 ≡ fail x
          → publish_batch inner inner_batch repo supplies events (b, t)
            ≡ (fail x, ((inner_batch events b).1, t)))
        × ((inner_batch events b).0 ≡ ok tt
            → publish_batch inner inner_batch repo supplies events (b, t)
              ≡ (ok tt, ((inner_batch events b).1, append_all repo supplies 0 events t)))
  unfolding publish_batch
  publish_batch-append_all supplies events b t = (
    λ x refused. ground arith,
    λ accepted. ground (arith, write_all-append_all supplies 0 events (inner_batch events b).1 t),
  )

  -- A publication has the inner bus's result, whatever happens to the outbox. If the inner bus
  -- refuses the event, or the database the row, then the outbox is as it was.
  pub publish-inner :
      (supply : Supply) (event : TenantAwareEvent) (b : inner.State) (t : repo.Table)
      → ((publish inner inner_batch repo supply event (b, t)).0 ≡ (inner.publish event b).0)
        × ((x : Exception)
            → (inner.publish event b).0 ≡ fail x
            → publish inner inner_batch repo supply event (b, t)
              ≡ (fail x, ((inner.publish event b).1, t)))
        × ((x : Exception)
            → (append repo (entry_of supply event) t).0 ≡ fail x
            → (publish inner inner_batch repo supply event (b, t)).1.1 ≡ t)
  unfolding publish write_to_outbox append
  publish-inner supply event b t =
      let result_is_inner : (publish inner inner_batch repo supply event (b, t)).0
          ≡ (inner.publish event b).0 =
        elim (Result-cases (inner.publish event b).0) [
          | inl (tt, e) ↦ ground arith
          | inr (x, e) ↦ ground arith
        ] in
      (
        result_is_inner,
        λ x refused. ground arith,
        λ x rejected.
            let kept =
              repo.insert_rejected (to_orm (entry_of supply event)) t _ x
                (λ i. (rejected i, (append repo (entry_of supply event) t).1)) in
            elim (Result-cases (inner.publish event b).0) [
              | inl (tt, e) ↦ ground arith
              | inr (y, e) ↦ ground arith
            ],
      )

-- The command that the processor sends for the row of a published event carries that event's
-- envelope: its ids, type, version, source and payload, and the stream of its tenant and type. The
-- time of its occurrence is not among them: events that differ in it alone give the same command.
pub command_of-entry_of :
    (supply : Supply) (event : TenantAwareEvent) (read other_time : ℕ)
    → (command_of (to_domain read (to_orm (entry_of supply event))) ≡ record {
      stream_id = codes "platform." ++ event.tenant_id ++ codes "." ++ event.event_type;
      type = event.event_type;
      source = event.source_service;
      payload = event.payload;
      metadata = some (("event_id", event.event_id) ∷ ("tenant_id", event.tenant_id) ∷ []);
      correlation_id = event.correlation_id;
      actor_id = event.actor_id;
      causation_id = event.causation_id;
      trace_id = event.trace_id;
      source_version = event.source_version;
      event_version = some event.event_version;
    })
      × (command_of (entry_of supply (record event { occurred_at = other_time }))
          ≡ command_of (entry_of supply event))
unfolding command_of to_domain to_orm entry_of
command_of-entry_of supply event read other_time = (refl, refl)
