-- ===== src/Tests/Events.antt =====
-- The theorems on the Redis Streams bus at concrete inputs.
use multi_tenant_saa_s_platf.Base.{
  ℕ, Text, ◌+◌, ◌≡◌, ◌++◌, refl, none, some, List, [], ◌∷◌, codes, ok, fail, Exception, error,
  ◌===◌,
}
use multi_tenant_saa_s_platf.Kernel.Json.{end}
use multi_tenant_saa_s_platf.Events.Envelope.{TenantAwareEvent}
use multi_tenant_saa_s_platf.Events.Bus
use multi_tenant_saa_s_platf.Events.Message.{
  JsonCodec, Undefined, fields_of, batch_fields_of, deserialize_event,
}
use multi_tenant_saa_s_platf.Events.Message.RoundTrip.{
  received, received_of_batch, deserialize_event-fields_of,
}
use multi_tenant_saa_s_platf.Events.Streams.{
  publish_batch, Redis, StreamConfig, DeadLetter, dispatch_to_handlers, consume_messages,
  consume_pending_messages,
}
use multi_tenant_saa_s_platf.Events.Streams.Dispatch.{
  letters, add_all, dispatch_to_handlers-letters,
}
use multi_tenant_saa_s_platf.Events.Streams.Consumption.{
  ActsAlike, additions, consume_messages-publish_batch, consume_pending_messages-stop,
}
use multi_tenant_saa_s_platf.Tests.Fixtures.{acme, zoo, ann}

abbrev down : Exception
down = error (record { template = "down"; values = [] })

abbrev event : TenantAwareEvent
event = record {
  event_id = zoo;
  event_type = ann;
  event_version = 1;
  tenant_id = acme;
  correlation_id = zoo;
  actor_id = none;
  causation_id = some ann;
  trace_id = none;
  source_service = acme;
  source_version = none;
  occurred_at = 5;
  payload = end;
}

-- A handler that throws after it has counted the event
abbrev counter : Bus.EventHandler ℕ
counter = record { handler_name = ann; handle = λ e n. (fail down, n + 1) }

-- A Redis that keeps its dead letters and the messages that were acknowledged; every read gives one
-- message without fields.
abbrev recording : Redis
recording = record {
  State = List DeadLetter × List Text;
  xadd = λ key l s. (ok tt, (l ∷ s.0, s.1));
  xack = λ stream group message_id s. (ok tt, (s.0, message_id ∷ s.1));
  xadd_event = λ key max_len fields s. (ok tt, s);
  exec = λ additions s. (ok tt, s);
  xgroup_create = λ key group s. (ok tt, s);
  xreadgroup = λ group key s. (ok (some ((key, (zoo, []) ∷ []) ∷ [])), s);
}

abbrev streams : StreamConfig
streams = record { stream_prefix = ann; consumer_group = acme; max_len = 9 }

dispatch_to_handlers-letters_example :
    dispatch_to_handlers recording streams
      (λ e. zoo)
      9
      event
      (counter ∷ counter ∷ [])
      ann
      zoo
      (([], []), 0)
    ≡ (
      ok tt,
      (
        add_all recording streams
            (λ e. zoo)
            9
            (letters recording streams (λ e. zoo) 9 event (counter ∷ counter ∷ []) 0)
            ([], []),
        Bus.run_handlers (counter ∷ counter ∷ []) event 0,
      ),
    )
unfolding letters
dispatch_to_handlers-letters_example =
    (dispatch_to_handlers-letters recording streams (λ e. zoo) 9 event (counter ∷ counter ∷ []) ann
        zoo ([], []) 0 (λ key l r. refl)).1
      refl

-- It reads "{}" and nothing else.
abbrev json : JsonCodec
json = record {
  stringify = λ f. codes "{}";
  parse = λ s. elim s [ [] ↦ fail down | c ∷ rest ↦ ok end ];
}

abbrev undefined : Undefined
undefined = record { text_value = []; instant_value = 0; number_value = 0 }

deserialize_event-fields_of_example :
    (deserialize_event json undefined (fields_of json event) ≡ ok (received event))
    × (deserialize_event json undefined (batch_fields_of json event) ≡ ok (received_of_batch event))
unfolding codes
deserialize_event-fields_of_example = deserialize_event-fields_of json undefined event refl

abbrev handlers : Bus.Handlers ℕ
handlers = (ann, counter ∷ counter ∷ []) ∷ []

abbrev published : List (Text × TenantAwareEvent)
published = (acme, event) ∷ (zoo, event) ∷ []

consume_messages-publish_batch_example :
    ActsAlike recording streams
      (λ e. zoo)
      9
      json
      undefined
      (counter ∷ counter ∷ [])
      ann
      (fields_of json)
      received
      handlers
      published
      ([], [])
      0
    × ActsAlike recording streams
        (λ e. zoo)
        9
        json
        undefined
        (counter ∷ counter ∷ [])
        ann
        (batch_fields_of json)
        received_of_batch
        handlers
        published
        ([], [])
        0
    × (publish_batch recording streams json (event ∷ event ∷ []) ([], [])
        ≡ recording.exec
            (additions recording streams
              (λ e. zoo)
              9
              json
              undefined
              (counter ∷ counter ∷ [])
              ann
              published)
            ([], []))
unfolding codes Bus.handlers_of ◌===◌
consume_messages-publish_batch_example =
    consume_messages-publish_batch recording streams (λ e. zoo) 9 json undefined
      (counter ∷ counter ∷ []) ann handlers published ([], []) 0 (λ key l r. refl)
      (λ key group id r. refl) ((refl, refl), ((refl, refl), tt))

-- A codec that no text suits
abbrev broken : JsonCodec
broken = record { stringify = λ f. []; parse = λ s. fail down }

consume_pending_messages-stop_example :
    consume_pending_messages recording streams (λ e. zoo) 9 broken undefined handlers (([], []), 0)
    ≡ consume_pending_messages recording streams (λ e. zoo) 9 broken undefined [] (([], []), 0)
unfolding deserialize_event consume_messages
consume_pending_messages-stop_example =
    consume_pending_messages-stop recording streams (λ e. zoo) 9 broken undefined counter
      (counter ∷ []) ann [] (streams.stream_prefix ++ ann) [] [] zoo [] down [] ([], []) ([], []) 0
      (([], []), 0) refl refl refl
