-- ===== src/Audit/Recording.antt =====
-- audit/application/commands/record-audit-event. The state is the table of events and the event bus.
pub mod Outcomes
use multi_tenant_saa_s_platf.Base.{ℕ, Option, none, some, [], ◌∷◌, Text, codes, ok, get_or}
use multi_tenant_saa_s_platf.Base.Actions.{Action, pure, ◌>>=◌, ◌>>◌, on_first, on_second}
use multi_tenant_saa_s_platf.Kernel.Context.{TenantContext}
use multi_tenant_saa_s_platf.Kernel.Json.{Fields, str, obj, field, end}
use multi_tenant_saa_s_platf.Kernel.Repository.{Repository}
use multi_tenant_saa_s_platf.Events.Envelope.{EventBus, TenantAwareEvent}
use multi_tenant_saa_s_platf.Audit.Event.{
  AuditActorType, AuditOutcome, success, system, AuditEvent, audit_column, audit_event_id,
  outcome_value, reconstitute,
}
use multi_tenant_saa_s_platf.Audit.Repository.{append}

-- What the constructor of the command is given.
pub record RecordParams : Type 0 where
  pub tenant_id : Text
  pub correlation_id : Text
  pub actor_id : Option Text
  pub actor_type : Option AuditActorType
  pub action : Text
  pub resource_type : Text
  pub resource_id : Text
  pub outcome : Option AuditOutcome
  pub metadata : Option Fields
  pub ip_address : Option Text
  pub user_agent : Option Text

pub record RecordAuditEventCommand : Type 0 where
  pub tenant_id : Text
  pub correlation_id : Text
  pub actor_id : Option Text
  pub actor_type : AuditActorType
  pub action : Text
  pub resource_type : Text
  pub resource_id : Text
  pub outcome : AuditOutcome
  pub metadata : Fields
  pub ip_address : Option Text
  pub user_agent : Option Text

-- The constructor, with its defaults
unfoldable pub new_command : RecordParams → RecordAuditEventCommand
new_command params = record {
  tenant_id = params.tenant_id;
  correlation_id = params.correlation_id;
  actor_id = params.actor_id;
  actor_type = get_or params.actor_type system;
  action = params.action;
  resource_type = params.resource_type;
  resource_id = params.resource_id;
  outcome = get_or params.outcome success;
  metadata = get_or params.metadata end;
  ip_address = params.ip_address;
  user_agent = params.user_agent;
}

-- The fresh id, and the readings of the clock for the event's own date and the base class's two.
pub record Supply : Type 0 where
  pub audit_event_id : Text
  pub occurred : ℕ
  pub created : ℕ
  pub updated : ℕ

unfoldable pub new_event : RecordAuditEventCommand → Supply → AuditEvent
unfolding reconstitute
new_event command supply =
    reconstitute
      (record {
        audit_event_id = supply.audit_event_id;
        tenant_id = command.tenant_id;
        actor_id = command.actor_id;
        actor_type = command.actor_type;
        action = command.action;
        resource_type = command.resource_type;
        resource_id = command.resource_id;
        outcome = command.outcome;
        metadata = command.metadata;
        correlation_id = command.correlation_id;
        ip_address = command.ip_address;
        user_agent = command.user_agent;
        occurred_at = supply.occurred;
      })
      supply.created supply.updated

-- The `AuditEventRecordedEvent`
unfoldable pub recorded_event : AuditEvent → TenantAwareEvent
unfolding codes outcome_value
recorded_event saved = record {
  event_id = audit_event_id saved;
  event_type = codes "audit.event.recorded";
  event_version = 1;
  tenant_id = saved.tenant_id;
  correlation_id = saved.correlation_id;
  actor_id = saved.actor_id;
  causation_id = none;
  trace_id = none;
  source_service = codes "atlas-saas-platform";
  source_version = none;
  occurred_at = saved.occurred_at;
  payload = field "auditEventId" (str (audit_event_id saved)) (
      field "action" (str saved.action) (
        field "resourceType" (str saved.resource_type) (
          field "resourceId" (str saved.resource_id) (
            field "outcome" (str (outcome_value saved.outcome))
              (field "metadata" (obj saved.metadata) end)))));
}

module _ (repo : Repository audit_column) (bus : EventBus) (store : Option TenantContext) where
  -- `RecordAuditEventHandler.execute`
  unfoldable pub execute_record :
      RecordAuditEventCommand → Supply → Action (repo.Table × bus.State) Text
  unfolding new_event recorded_event
  execute_record command supply = do
    saved ← on_first (append repo store (new_event command supply))
    on_second (bus.publish (recorded_event saved))
    pure (audit_event_id saved)
