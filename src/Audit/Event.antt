-- ===== src/Audit/Event.antt =====
-- audit/domain/entities/audit-event.entity.ts and the row that an event is stored as. The event's
-- methods only read it: the class has no operation that changes one.
use text.Mathlib.Text.{◌==◌ as str_eq}
use multi_tenant_saa_s_platf.Base.{ℕ, Option, none, some, Text, String, codes, if◌then◌else◌}
use multi_tenant_saa_s_platf.Kernel.Json.{Fields}
use multi_tenant_saa_s_platf.Kernel.Entity.{Entity, new_entity}

pub data AuditActorType : Type 0 where
  user api_key system : AuditActorType

pub data AuditOutcome : Type 0 where
  success failure : AuditOutcome

unfoldable pub outcome_value : AuditOutcome → Text
unfolding codes
outcome_value success = codes "success"
outcome_value failure = codes "failure"

pub record AuditEventProps : Type 0 where
  pub audit_event_id : Text
  pub tenant_id : Text
  pub actor_id : Option Text
  pub actor_type : AuditActorType
  pub action : Text
  pub resource_type : Text
  pub resource_id : Text
  pub outcome : AuditOutcome
  pub metadata : Fields
  pub correlation_id : Text
  pub ip_address : Option Text
  pub user_agent : Option Text
  pub occurred_at : ℕ

pub record AuditEvent : Type 0 where
  pub base : Entity
  pub tenant_id : Text
  pub actor_id : Option Text
  pub actor_type : AuditActorType
  pub action : Text
  pub resource_type : Text
  pub resource_id : Text
  pub outcome : AuditOutcome
  pub metadata : Fields
  pub correlation_id : Text
  pub ip_address : Option Text
  pub user_agent : Option Text
  pub occurred_at : ℕ

-- `get auditEventId`
abbrev pub audit_event_id : AuditEvent → Text
audit_event_id e = e.base.id

-- The constructor, which gives the base class the id only: its two dates are readings of the clock.
unfoldable pub reconstitute : AuditEventProps → ℕ → ℕ → AuditEvent
unfolding new_entity
reconstitute props now now' = record {
  base =
      new_entity (record { id = some props.audit_event_id; created_at = none; updated_at = none })
        props.audit_event_id now now';
  tenant_id = props.tenant_id;
  actor_id = props.actor_id;
  actor_type = props.actor_type;
  action = props.action;
  resource_type = props.resource_type;
  resource_id = props.resource_id;
  outcome = props.outcome;
  metadata = props.metadata;
  correlation_id = props.correlation_id;
  ip_address = props.ip_address;
  user_agent = props.user_agent;
  occurred_at = props.occurred_at;
}

-- The row in the table `audit_events`
pub record AuditEventOrm : Type 0 where
  pub id : Text
  pub tenant_id : Text
  pub actor_id : Option Text
  pub actor_type : AuditActorType
  pub action : Text
  pub resource_type : Text
  pub resource_id : Text
  pub outcome : AuditOutcome
  pub metadata : Fields
  pub correlation_id : Text
  pub ip_address : Option Text
  pub user_agent : Option Text
  pub occurred_at : ℕ

-- The columns that the code's `where` objects and the tenant's condition name.
unfoldable pub audit_column : String → AuditEventOrm → Text
audit_column k e = if str_eq k "tenantId" then e.tenant_id else e.id

unfoldable pub to_domain : ℕ → ℕ → AuditEventOrm → AuditEvent
unfolding reconstitute
to_domain now now' orm =
    reconstitute
      (record {
        audit_event_id = orm.id;
        tenant_id = orm.tenant_id;
        actor_id = orm.actor_id;
        actor_type = orm.actor_type;
        action = orm.action;
        resource_type = orm.resource_type;
        resource_id = orm.resource_id;
        outcome = orm.outcome;
        metadata = orm.metadata;
        correlation_id = orm.correlation_id;
        ip_address = orm.ip_address;
        user_agent = orm.user_agent;
        occurred_at = orm.occurred_at;
      })
      now now'

unfoldable pub to_orm : AuditEvent → AuditEventOrm
to_orm entity = record {
  id = audit_event_id entity;
  tenant_id = entity.tenant_id;
  actor_id = entity.actor_id;
  actor_type = entity.actor_type;
  action = entity.action;
  resource_type = entity.resource_type;
  resource_id = entity.resource_id;
  outcome = entity.outcome;
  metadata = entity.metadata;
  correlation_id = entity.correlation_id;
  ip_address = entity.ip_address;
  user_agent = entity.user_agent;
  occurred_at = entity.occurred_at;
}
