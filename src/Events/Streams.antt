-- ===== src/Events/Streams.antt =====
-- platform-events/adapters/redis-streams.event-bus.ts: publishing, subscribing, and consuming what is
-- read. The calls on Redis are parameters; a dead letter is kept as the fields that it has.
pub mod Dispatch
pub mod Consumption
use multi_tenant_saa_s_platf.Base.{
  ℕ, Bool, true, false, not, Option, none, some, List, [], ◌∷◌, ◌++◌, map, Text, codes, Result, ok,
  fail, Exception, ◌===◌, keep,
}
use multi_tenant_saa_s_platf.Base.Actions.{Action, lift, pure, ◌>>=◌, ◌>>◌, on_first, on_second}
use multi_tenant_saa_s_platf.Events.Envelope.{TenantAwareEvent}
use multi_tenant_saa_s_platf.Events.Bus.{EventHandler, Handlers, handlers_of, set_handlers}
use multi_tenant_saa_s_platf.Events.Message.{
  Value, JsonCodec, Undefined, fields_of, batch_fields_of, deserialize_event,
}

-- The entry of the dead-letter stream
pub record DeadLetter : Type 0 where
  pub original_event : TenantAwareEvent
  pub handler_name : Text
  pub error_message : Text
  pub failed_at : ℕ

-- A message of a stream: its id and its fields.
abbrev pub Message : Type 0
Message = Text × List Value

-- The calls of ioredis that the code makes; each of them may fail. `xadd` adds to the dead-letter
-- stream, by its key; `xadd_event` to an event's stream, with the length it is trimmed to; `exec` runs a
-- pipeline of such additions; `xgroup_create` is given the stream and the group, `xack` the message too;
-- `xreadgroup` reads the new messages, of each stream that has some.
pub record Redis : Type 1 where
  pub State : Type 0
  pub xadd : Text → DeadLetter → Action State (Unit {0})
  pub xack : Text → Text → Text → Action State (Unit {0})
  pub xadd_event : Text → ℕ → List Value → Action State (Unit {0})
  pub exec : List (Text × ℕ × List Value) → Action State (Unit {0})
  pub xgroup_create : Text → Text → Action State (Unit {0})
  pub xreadgroup : Text → Text → Action State (Option (List (Text × List Message)))

pub record StreamConfig : Type 0 where
  pub stream_prefix : Text
  pub consumer_group : Text
  pub max_len : ℕ

-- `(err as Error).message` is the last parameter but one; `now` is the reading of the clock that each
-- dead letter is given.
module _ (redis : Redis) (config : StreamConfig) (message : Exception → Text) (now : ℕ) where
  unfoldable pub letter_of : TenantAwareEvent → Text → Exception → DeadLetter
  letter_of event handler_name e = record {
    original_event = event;
    handler_name = handler_name;
    error_message = message e;
    failed_at = now;
  }

  -- `sendToDeadLetterStream`
  unfoldable pub send_to_dead_letter_stream :
      TenantAwareEvent → Text → Exception → Action redis.State (Unit {0})
  unfolding letter_of codes
  send_to_dead_letter_stream event handler_name e =
      redis.xadd (config.stream_prefix ++ codes "dlq") (letter_of event handler_name e)

  module _ {W : Type 0} where
    -- The loop over the handlers, which gives `allSucceeded`. What a handler throws is caught; what
    -- sending the dead letter throws is not.
    unfoldable pub run_all :
        TenantAwareEvent → List (EventHandler W) → Bool → Action (redis.State × W) Bool
    unfolding send_to_dead_letter_stream
    run_all event [] all_succeeded s = (ok all_succeeded, s)
    run_all event (handler ∷ handlers) all_succeeded (r, w) = elim (handler.handle event w).0 [
      | ok done ↦ run_all event handlers all_succeeded (r, (handler.handle event w).1)
      | fail e ↦
          (on_first (send_to_dead_letter_stream event handler.handler_name e)
              >> run_all event handlers false)
            (r, (handler.handle event w).1)
    ]

    -- `dispatchToHandlers`
    unfoldable pub dispatch_to_handlers :
        TenantAwareEvent → List (EventHandler W) → Text → Text → Action (redis.State × W) (Unit {0})
    unfolding run_all
    dispatch_to_handlers event handlers stream_key message_id = do
      all_succeeded ← run_all event handlers true
      elim all_succeeded [
        | true ↦ on_first (redis.xack stream_key config.consumer_group message_id)
        | false ↦ pure tt
      ]

    module _ (json : JsonCodec) (undefined : Undefined) where
      -- The loop over the messages of a stream; what throws ends it.
      unfoldable pub consume_messages :
          List (EventHandler W) → Text → List Message → Action (redis.State × W) (Unit {0})
      unfolding deserialize_event dispatch_to_handlers
      consume_messages handlers stream_key [] = pure tt
      consume_messages handlers stream_key ((message_id, fields) ∷ messages) = do
        event ← lift (deserialize_event json undefined fields)
        dispatch_to_handlers event handlers stream_key message_id
        consume_messages handlers stream_key messages

      -- The loop over the streams of a result
      unfoldable pub consume_results :
          List (EventHandler W)
          → Text
          → List (Text × List Message)
          → Action (redis.State × W) (Unit {0})
      unfolding consume_messages
      consume_results handlers stream_key [] = pure tt
      consume_results handlers stream_key (result ∷ results) = do
        consume_messages handlers stream_key result.1
        consume_results handlers stream_key results

      -- What is tried for one type of events
      unfoldable pub consume_type :
          Text → List (EventHandler W) → Action (redis.State × W) (Unit {0})
      unfolding consume_results
      consume_type event_type handlers =
          let stream_key = config.stream_prefix ++ event_type in
          do
            results ← on_first (redis.xreadgroup config.consumer_group stream_key)
            elim results [
              | none ↦ pure tt
              | some results ↦ consume_results handlers stream_key results
            ]

      -- `consumePendingMessages`; what is thrown for one type is caught.
      unfoldable pub consume_pending_messages : Handlers W → Action (redis.State × W) (Unit {0})
      unfolding consume_type
      consume_pending_messages [] s = (ok tt, s)
      consume_pending_messages ((event_type, []) ∷ m) s = consume_pending_messages m s
      consume_pending_messages ((event_type, handler ∷ handlers) ∷ m) s =
          consume_pending_messages m (consume_type event_type (handler ∷ handlers) s).1

module _ (redis : Redis) (config : StreamConfig) (json : JsonCodec) where
  unfoldable pub publish : TenantAwareEvent → Action redis.State (Unit {0})
  unfolding fields_of
  publish event =
      redis.xadd_event (config.stream_prefix ++ event.event_type) config.max_len
        (fields_of json event)

  unfoldable pub publish_batch : List TenantAwareEvent → Action redis.State (Unit {0})
  unfolding batch_fields_of
  publish_batch events = redis.exec (
      map
        (λ event.
          (config.stream_prefix ++ event.event_type, config.max_len, batch_fields_of json event))
        events)

module _ (redis : Redis) (config : StreamConfig) {W : Type 0} where
  -- What creating the group throws is ignored.
  unfoldable pub subscribe : Text → EventHandler W → Action (Handlers W × redis.State) (Unit {0})
  unfolding handlers_of set_handlers
  subscribe event_type handler (m, r) = (
    ok tt,
    (
      set_handlers event_type (handlers_of event_type m ++ handler ∷ []) m,
      (redis.xgroup_create (config.stream_prefix ++ event_type) config.consumer_group r).1,
    ),
  )

module _ {W : Type 0} where
  unfoldable pub unsubscribe : Text → Text → Handlers W → Handlers W
  unfolding handlers_of set_handlers
  unsubscribe event_type handler_name m =
      set_handlers event_type
        (keep (λ h. not (h.handler_name === handler_name)) (handlers_of event_type m)) m
