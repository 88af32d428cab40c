-- ===== src/Events/Message/RoundTrip.antt =====
-- `publish`, `publishBatch` and `deserializeEvent` of redis-streams.event-bus.ts, one after the other.
use multi_tenant_saa_s_platf.Base.{◌≡◌, refl, Option, none, some, [], Text, ok, get_or, ◌===◌}
use multi_tenant_saa_s_platf.Events.Envelope.{TenantAwareEvent}
use multi_tenant_saa_s_platf.Events.Message.{
  JsonCodec, Undefined, fields_of, batch_fields_of, deserialize_event, or_undefined, read,
}
use multi_tenant_saa_s_platf.Events.Message.Decimals.{parse_int-decimal}

-- An empty actor is no actor.
abbrev actor_read : Option Text → Option Text
actor_read none = none
actor_read (some a) = or_undefined (some a)

-- What a consumer sees of an event that was published alone, and in a batch.
abbrev pub received : TenantAwareEvent → TenantAwareEvent
received event = record event {
  actor_id = actor_read event.actor_id;
  causation_id = none;
  trace_id = none;
  source_version = none;
}

abbrev pub received_of_batch : TenantAwareEvent → TenantAwareEvent
received_of_batch event = record event {
  event_version = 1;
  actor_id = none;
  causation_id = none;
  trace_id = none;
  source_service = [];
  source_version = none;
}

actor_id_read : (a : Option Text) → or_undefined (some (get_or a [])) ≡ actor_read a
actor_id_read none = refl
actor_id_read (some a) = refl

module _ (json : JsonCodec) (undefined : Undefined) (event : TenantAwareEvent) where
  -- An event whose payload JSON carries is read back from the entry that it was published as: alone, it
  -- keeps all but its causation, its trace, the version of its source and an actor that is empty; in a
  -- batch, it loses its actor and its source too, and its version becomes 1.
  pub deserialize_event-fields_of :
      json.parse (json.stringify event.payload) ≡ ok event.payload
      → (deserialize_event json undefined (fields_of json event) ≡ ok (received event))
        × (deserialize_event json undefined (batch_fields_of json event)
            ≡ ok (received_of_batch event))
  unfolding deserialize_event fields_of batch_fields_of read ◌===◌
  deserialize_event-fields_of h =
      let v = parse_int-decimal event.event_version in
      let a = actor_id_read event.actor_id in (rw (h, v, a) refl, rw h refl)
