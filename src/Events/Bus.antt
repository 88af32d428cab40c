-- ===== src/Events/Bus.antt =====
-- platform-events/adapters/in-memory.event-bus.ts. The handlers act on a world of their own; a
-- handler does not register others while it runs.
pub mod Delivery
use multi_tenant_saa_s_platf.Base.{
  Bool, true, false, not, Option, none, some, List, [], ◌∷◌, ◌++◌, Text, Result, ok, fail, ◌===◌,
  keep, get_or,
}
use multi_tenant_saa_s_platf.Base.Actions.{Action}
use multi_tenant_saa_s_platf.Events.Envelope.{TenantAwareEvent}

-- `IEventHandler`, on the world that it acts on
pub record EventHandler (W : Type 0) : Type 0 where
  pub handler_name : Text
  pub handle : TenantAwareEvent → Action W (Unit {0})

-- The map from event types to handlers, in the order of its keys' insertion.
abbrev pub Handlers : Type 0 → Type 0
Handlers W = List (Text × List (EventHandler W))

module _ {W : Type 0} where
  -- `handlers.get(type) ?? []`
  unfoldable pub handlers_of : Text → Handlers W → List (EventHandler W)
  handlers_of event_type [] = []
  handlers_of event_type (entry ∷ m) = elim (entry.0 === event_type) [
    | true ↦ entry.1
    | false ↦ handlers_of event_type m
  ]

  -- `handlers.set(type, handlers)`
  unfoldable pub set_handlers : Text → List (EventHandler W) → Handlers W → Handlers W
  set_handlers event_type handlers [] = (event_type, handlers) ∷ []
  set_handlers event_type handlers (entry ∷ m) = elim (entry.0 === event_type) [
    | true ↦ (entry.0, handlers) ∷ m
    | false ↦ entry ∷ set_handlers event_type handlers m
  ]

  -- The loop over the handlers; what one throws is logged only.
  unfoldable pub run_handlers : List (EventHandler W) → TenantAwareEvent → W → W
  run_handlers [] event w = w
  run_handlers (handler ∷ handlers) event w = run_handlers handlers event (handler.handle event w).1

  unfoldable pub publish : TenantAwareEvent → Action (Handlers W × W) (Unit {0})
  unfolding handlers_of run_handlers
  publish event (m, w) = (ok tt, (m, run_handlers (handlers_of event.event_type m) event w))

  unfoldable pub publish_batch : List TenantAwareEvent → Action (Handlers W × W) (Unit {0})
  unfolding publish
  publish_batch [] s = (ok tt, s)
  publish_batch (event ∷ events) s = publish_batch events (publish event s).1

  unfoldable pub subscribe : Text → EventHandler W → Handlers W → Handlers W
  unfolding handlers_of set_handlers
  subscribe event_type handler m =
      set_handlers event_type (handlers_of event_type m ++ handler ∷ []) m

  unfoldable pub unsubscribe : Text → Text → Handlers W → Handlers W
  unfolding handlers_of set_handlers
  unsubscribe event_type handler_name m =
      set_handlers event_type
        (keep (λ h. not (h.handler_name === handler_name)) (handlers_of event_type m)) m

  -- `onModuleDestroy`
  unfoldable pub on_module_destroy : Handlers W → Handlers W
  on_module_destroy m = []
