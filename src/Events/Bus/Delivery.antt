-- ===== src/Events/Bus/Delivery.antt =====
-- Who in-memory.event-bus.ts calls after subscriptions and their ends.
use multi_tenant_saa_s_platf.Base.{
  ◌≡◌, ◌≢◌, refl, sym, ap, inl, inr, not, List, [], ◌∷◌, ◌++◌, Text, arith, ◌===◌, text_eq_iff,
  keep, Bool-cases,
}
use multi_tenant_saa_s_platf.Events.Envelope.{TenantAwareEvent}
use multi_tenant_saa_s_platf.Events.Bus.{
  EventHandler, Handlers, handlers_of, set_handlers, run_handlers, publish, subscribe, unsubscribe,
}

module _ {W : Type 0} where
  set_handlers-same :
      (k : Text) (hs : List (EventHandler W)) (m : Handlers W)
      → handlers_of k (set_handlers k hs m) ≡ hs
  unfolding handlers_of set_handlers
  set_handlers-same k hs [] = ground (arith, text_eq_iff k k)
  set_handlers-same k hs (entry ∷ m) = elim (Bool-cases (entry.0 === k)) [
    | inl same ↦ ground arith
    | inr other ↦ ground (arith, set_handlers-same k hs m)
  ]

  set_handlers-other :
      (k l : Text) (hs : List (EventHandler W)) (m : Handlers W)
      → k ≢ l
      → handlers_of l (set_handlers k hs m) ≡ handlers_of l m
  unfolding handlers_of set_handlers
  set_handlers-other k l hs [] differ = ground (arith, text_eq_iff k l)
  set_handlers-other k l hs (entry ∷ m) differ = elim (Bool-cases (entry.0 === k)) [
    | inl same ↦ ground (arith, text_eq_iff entry.0 k, text_eq_iff entry.0 l)
    | inr other ↦ ground (arith, set_handlers-other k l hs m differ)
  ]

  run_handlers-++ :
      (hs hs' : List (EventHandler W)) (event : TenantAwareEvent) (w : W)
      → run_handlers (hs ++ hs') event w ≡ run_handlers hs' event (run_handlers hs event w)
  unfolding run_handlers
  run_handlers-++ [] hs' event w = refl
  run_handlers-++ (h ∷ hs) hs' event w = run_handlers-++ hs hs' event (h.handle event w).1

  -- After a handler is subscribed, a publication of that type calls it after all that were there
  -- before, also if those throw; publications of other types act as before.
  pub publish-subscribe :
      (event_type : Text) (handler : EventHandler W) (m : Handlers W) (event : TenantAwareEvent)
      (w : W)
      → (event.event_type ≡ event_type
          → (publish event (subscribe event_type handler m, w)).1.1
            ≡ (handler.handle event (publish event (m, w)).1.1).1)
        × (event.event_type ≢ event_type
            → (publish event (subscribe event_type handler m, w)).1.1 ≡ (publish event (m, w)).1.1)
  unfolding publish subscribe run_handlers
  publish-subscribe k h m event w = (
    λ e.
        let same : handlers_of event.event_type (subscribe k h m)
            ≡ handlers_of event.event_type m ++ h ∷ [] =
          rw e (set_handlers-same k (handlers_of k m ++ h ∷ []) m) in
        rw same (run_handlers-++ (handlers_of event.event_type m) (h ∷ []) event w),
    λ differ.
        ap (λ hs. run_handlers hs event w)
          (set_handlers-other k event.event_type _ m (λ e. differ (sym e))),
  )

  -- After a handler's subscription ends, none of that name is left for that type, those of other
  -- names stay in their order, and the other types' are as they were.
  pub unsubscribe-handlers_of :
      (event_type handler_name other : Text) (m : Handlers W)
      → (handlers_of event_type (unsubscribe event_type handler_name m)
          ≡ keep
              (λ (h : EventHandler W). not (h.handler_name === handler_name))
              (handlers_of event_type m))
        × (other ≢ event_type
            → handlers_of other (unsubscribe event_type handler_name m) ≡ handlers_of other m)
  unfolding unsubscribe
  unsubscribe-handlers_of k name other m =
      (set_handlers-same k _ m, λ differ. set_handlers-other k other _ m (λ e. differ (sym e)))
