-- ===== src/Kernel/Entity.antt =====
-- Entities and domain events: libs/shared-kernel/src/domain. An instant is a number of milliseconds;
-- what `new Date()` and `uuidv4()` return are arguments.
use multi_tenant_saa_s_platf.Base.{ℕ, Bool, Option, Text, codes, get_or, ◌===◌, String}
use multi_tenant_saa_s_platf.Kernel.Json.{Fields}

-- The state that `Entity` keeps.
pub record Entity : Type 0 where
  pub id : Text
  pub created_at : ℕ
  pub updated_at : ℕ

pub record EntityProps : Type 0 where
  pub id : Option Text
  pub created_at : Option ℕ
  pub updated_at : Option ℕ

-- The constructor; the arguments are the fresh id and the two readings of the clock.
unfoldable pub new_entity : EntityProps → Text → ℕ → ℕ → Entity
new_entity props fresh now now' = record {
  id = get_or props.id fresh;
  created_at = get_or props.created_at now;
  updated_at = get_or props.updated_at now';
}

unfoldable pub touch : ℕ → Entity → Entity
touch now e = record e { updated_at = now }

-- `equals`, on two entities
pub equals : Entity → Entity → Bool
equals e other = e.id === other.id

pub record DomainEventMetadata : Type 0 where
  pub tenant_id : Text
  pub correlation_id : Text
  pub actor_id : Option Text
  pub causation_id : Option Text
  pub trace_id : Option Text
  pub source_service : Option Text
  pub source_version : Option Text

pub record DomainEvent : Type 0 where
  pub event_id : Text
  pub event_type : String
  pub event_version : ℕ
  pub tenant_id : Text
  pub correlation_id : Text
  pub actor_id : Option Text
  pub causation_id : Option Text
  pub trace_id : Option Text
  pub source_service : Text
  pub source_version : Option Text
  pub occurred_at : ℕ
  pub payload : Fields

-- The constructor of a subclass named `event_type`, with its `payload`.
unfoldable pub new_domain_event : String → DomainEventMetadata → Fields → Text → ℕ → DomainEvent
new_domain_event event_type metadata payload fresh now = record {
  event_id = fresh;
  event_type = event_type;
  event_version = 1;
  tenant_id = metadata.tenant_id;
  correlation_id = metadata.correlation_id;
  actor_id = metadata.actor_id;
  causation_id = metadata.causation_id;
  trace_id = metadata.trace_id;
  source_service = get_or metadata.source_service (codes "atlas-saas-platform");
  source_version = metadata.source_version;
  occurred_at = now;
  payload = payload;
}
