-- ===== src/Outbox/Entry.antt =====
-- outbox/domain/entities/outbox-entry.entity.ts
pub mod Attempts
use multi_tenant_saa_s_platf.Base.{ℕ, ◌+◌, Option, none, some, Text, leb, if◌then◌else◌}
use multi_tenant_saa_s_platf.Kernel.Entity.{Entity, new_entity}
use multi_tenant_saa_s_platf.Kernel.Json.{Fields}

pub data OutboxEntryStatus : Type 0 where
  pending processed failed : OutboxEntryStatus

-- The payload is kept as the fields that it holds.
pub record OutboxEntryProps : Type 0 where
  pub outbox_entry_id : Text
  pub event_id : Text
  pub event_type : Text
  pub event_version : ℕ
  pub tenant_id : Text
  pub correlation_id : Text
  pub actor_id : Option Text
  pub causation_id : Option Text
  pub trace_id : Option Text
  pub source_service : Text
  pub source_version : Option Text
  pub payload : Fields
  pub status : OutboxEntryStatus
  pub attempts : ℕ
  pub last_error : Option Text
  pub occurred_at : ℕ
  pub created_at : ℕ
  pub processed_at : Option ℕ

pub record OutboxEntry : Type 0 where
  pub base : Entity
  pub open base use *
  pub event_id : Text
  pub event_type : Text
  pub event_version : ℕ
  pub tenant_id : Text
  pub correlation_id : Text
  pub actor_id : Option Text
  pub causation_id : Option Text
  pub trace_id : Option Text
  pub source_service : Text
  pub source_version : Option Text
  pub payload : Fields
  pub status : OutboxEntryStatus
  pub attempts : ℕ
  pub last_error : Option Text
  pub occurred_at : ℕ
  pub processed_at : Option ℕ

-- The constructor, which `reconstitute` is too; the last argument is the clock at that time.
unfoldable pub reconstitute : OutboxEntryProps → ℕ → OutboxEntry
unfolding new_entity
reconstitute props now = record {
  base =
      new_entity
        (record {
          id = some props.outbox_entry_id;
          created_at = some props.created_at;
          updated_at = none;
        })
        props.outbox_entry_id now now;
  event_id = props.event_id;
  event_type = props.event_type;
  event_version = props.event_version;
  tenant_id = props.tenant_id;
  correlation_id = props.correlation_id;
  actor_id = props.actor_id;
  causation_id = props.causation_id;
  trace_id = props.trace_id;
  source_service = props.source_service;
  source_version = props.source_version;
  payload = props.payload;
  status = props.status;
  attempts = props.attempts;
  last_error = props.last_error;
  occurred_at = props.occurred_at;
  processed_at = props.processed_at;
}

-- `Omit<OutboxEntryProps, 'outboxEntryId' | 'status' | 'attempts' | 'createdAt'>`
pub record CreateParams : Type 0 where
  pub event_id : Text
  pub event_type : Text
  pub event_version : ℕ
  pub tenant_id : Text
  pub correlation_id : Text
  pub actor_id : Option Text
  pub causation_id : Option Text
  pub trace_id : Option Text
  pub source_service : Text
  pub source_version : Option Text
  pub payload : Fields
  pub last_error : Option Text
  pub occurred_at : ℕ
  pub processed_at : Option ℕ

-- The last arguments are the fresh id and the two readings of the clock.
unfoldable pub create : CreateParams → Text → ℕ → ℕ → OutboxEntry
unfolding reconstitute
create params outbox_entry_id now now' =
    reconstitute
      (record {
        outbox_entry_id = outbox_entry_id;
        status = pending;
        attempts = 0;
        created_at = now;
        event_id = params.event_id;
        event_type = params.event_type;
        event_version = params.event_version;
        tenant_id = params.tenant_id;
        correlation_id = params.correlation_id;
        actor_id = params.actor_id;
        causation_id = params.causation_id;
        trace_id = params.trace_id;
        source_service = params.source_service;
        source_version = params.source_version;
        payload = params.payload;
        last_error = params.last_error;
        occurred_at = params.occurred_at;
        processed_at = params.processed_at;
      })
      now'

unfoldable pub mark_processed : ℕ → OutboxEntry → OutboxEntry
mark_processed now entry = record entry { status = processed; processed_at = some now }

unfoldable pub record_attempt_failure : Text → ℕ → OutboxEntry → OutboxEntry
record_attempt_failure error max_attempts entry = record entry {
  attempts = entry.attempts + 1;
  last_error = some error;
  status = if leb max_attempts (entry.attempts + 1) then failed else entry.status;
}
