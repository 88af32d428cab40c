-- ===== src/Events/Envelope.antt =====
-- libs/event-contracts/src/base/tenant-aware-event.interface.ts and
-- platform-events/ports/event-bus.port.ts. The fields of replayed events are set by no code here
-- and are left out; an ISO-8601 text is the instant that it stands for.
use multi_tenant_saa_s_platf.Base.{ℕ, Option, Text}
use multi_tenant_saa_s_platf.Base.Actions.{Action}
use multi_tenant_saa_s_platf.Kernel.Json.{Fields}
use multi_tenant_saa_s_platf.Kernel.Entity.{DomainEvent}

pub record TenantAwareEvent : Type 0 where
  pub event_id : Text
  pub event_type : Text
  pub event_version : ℕ
  pub tenant_id : Text
  pub correlation_id : Text
  pub actor_id : Option Text
  pub causation_id : Option Text
  pub trace_id : Option Text
  pub source_service : Text
  pub source_version : Option Text
  pub occurred_at : ℕ
  pub payload : Fields

-- The port `IEventBus` as its publishers see it.
pub record EventBus : Type 1 where
  pub State : Type 0
  pub publish : TenantAwareEvent → Action State (Unit {0})

-- The integration event that the handlers build out of a domain event.
unfoldable pub integration_event : Text → DomainEvent → TenantAwareEvent
integration_event event_type e = record {
  event_id = e.event_id;
  event_type = event_type;
  event_version = e.event_version;
  tenant_id = e.tenant_id;
  correlation_id = e.correlation_id;
  actor_id = e.actor_id;
  causation_id = e.causation_id;
  trace_id = e.trace_id;
  source_service = e.source_service;
  source_version = e.source_version;
  occurred_at = e.occurred_at;
  payload = e.payload;
}
