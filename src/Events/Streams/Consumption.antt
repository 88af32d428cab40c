-- ===== src/Events/Streams/Consumption.antt =====
-- `consumePendingMessages` of redis-streams.event-bus.ts, beside the in-memory bus.
use multi_tenant_saa_s_platf.Base.{
  ℕ, ◌≡◌, refl, ◌∙◌, inl, inr, some, List, [], ◌∷◌, ◌++◌, map, Text, ok, fail, Result, ap,
  Exception, arith, Result-cases, is_empty, nil_of_empty, All, Bool-cases,
}
use multi_tenant_saa_s_platf.Events.Envelope.{TenantAwareEvent}
use multi_tenant_saa_s_platf.Events.Bus
use multi_tenant_saa_s_platf.Events.Bus.{EventHandler, Handlers, handlers_of, run_handlers}
use multi_tenant_saa_s_platf.Events.Message.{
  JsonCodec, Undefined, Value, fields_of, batch_fields_of, deserialize_event,
}
use multi_tenant_saa_s_platf.Events.Message.RoundTrip.{
  received, received_of_batch, deserialize_event-fields_of,
}
use multi_tenant_saa_s_platf.Events.Streams.{
  Redis, StreamConfig, Message, publish_batch, dispatch_to_handlers, consume_messages,
  consume_results, consume_type, consume_pending_messages,
}
use multi_tenant_saa_s_platf.Events.Streams.Dispatch.{
  Accepting, letters, dispatch_to_handlers-letters,
}

module _ (redis : Redis) (config : StreamConfig) (message : Exception → Text) (now : ℕ) {W : Type 0}
    (json : JsonCodec) (undefined : Undefined) (handlers : List (EventHandler W))
    (stream_key : Text) where
  -- Every message can be acknowledged.
  abbrev pub Acknowledging : Type 0
  Acknowledging = (key group id : Text) (r : redis.State) → (redis.xack key group id r).0 ≡ ok tt

  dispatched :
      (event : TenantAwareEvent) (message_id : Text) (r : redis.State) (w : W)
      → Accepting redis config message now
      → Acknowledging
      → (r' : redis.State) × (dispatch_to_handlers redis config message now event handlers
            stream_key message_id
            (r, w)
          ≡ (ok tt, (r', run_handlers handlers event w)))
  dispatched event message_id r w accepts acks =
      let (none_failed, some_failed) =
        dispatch_to_handlers-letters redis config message now event handlers stream_key message_id r
          w accepts in
      elim (Bool-cases (is_empty (letters redis config message now event handlers w))) [
        | inl empty ↦
            let acked = redis.xack stream_key config.consumer_group message_id r in
            (
              acked.1,
              none_failed (nil_of_empty _ empty) ∙ (λ i. (
                acks stream_key config.consumer_group message_id r i,
                (acked.1, run_handlers handlers event w),
              )),
            )
        | inr full ↦ (_, some_failed full)
      ]

  consume_step :
      (id : Text) (fields : List Value) (messages : List Message) (event : TenantAwareEvent)
      (s s' : redis.State × W)
      → deserialize_event json undefined fields ≡ ok event
      → dispatch_to_handlers redis config message now event handlers stream_key id s ≡ (ok tt, s')
      → consume_messages redis config message now json undefined handlers stream_key
          ((id, fields) ∷ messages)
          s
        ≡ consume_messages redis config message now json undefined handlers stream_key messages s'
  unfolding consume_messages
  consume_step id fields messages event s s' read sent = ground arith

  -- The entries of published events, each with the id that it was given and the fields that it has.
  abbrev pub entries :
      (TenantAwareEvent → List Value) → List (Text × TenantAwareEvent) → List Message
  entries fields published = map (λ p. (p.0, fields p.1)) published

  -- The events of entries, as a consumer reads them.
  abbrev pub read_all :
      (TenantAwareEvent → TenantAwareEvent) → List (Text × TenantAwareEvent) → List TenantAwareEvent
  read_all seen published = map (λ p. seen p.1) published

  -- A published event that JSON carries and that is of the type of these handlers in a map.
  abbrev pub IsCarried : Handlers W → Text × TenantAwareEvent → Type 0
  IsCarried m p =
      (json.parse (json.stringify p.1.payload) ≡ ok p.1.payload)
      × (handlers_of p.1.event_type m ≡ handlers)

  -- Consuming entries with such fields ends without a throw, and acts on the world as publishing what is
  -- seen of them on the in-memory bus does.
  abbrev pub ActsAlike :
      (TenantAwareEvent → List Value)
      → (TenantAwareEvent → TenantAwareEvent)
      → Handlers W
      → List (Text × TenantAwareEvent)
      → redis.State
      → W
      → Type 0
  ActsAlike fields seen m published r w =
      (r' : redis.State) × (consume_messages redis config message now json undefined handlers
          stream_key (entries fields published) (r, w)
        ≡ (ok tt, (r', (Bus.publish_batch (read_all seen published) (m, w)).1.1)))

  publish_batch_step :
      (m : Handlers W) (event : TenantAwareEvent) (events : List TenantAwareEvent) (w : W)
      → handlers_of event.event_type m ≡ handlers
      → Bus.publish_batch events (m, run_handlers handlers event w)
        ≡ Bus.publish_batch (event ∷ events) (m, w)
  unfolding Bus.publish_batch Bus.publish
  publish_batch_step m event events w same = rw same refl

  module _ (fields : TenantAwareEvent → List Value) (seen : TenantAwareEvent → TenantAwareEvent)
      (m : Handlers W) where
    -- Its fields give what is seen of it, for these handlers.
    abbrev IsRead : Text × TenantAwareEvent → Type 0
    IsRead p =
        (deserialize_event json undefined (fields p.1) ≡ ok (seen p.1))
        × (handlers_of (seen p.1).event_type m ≡ handlers)

    entries-ActsAlike :
        (published : List (Text × TenantAwareEvent)) (r : redis.State) (w : W)
        → Accepting redis config message now
        → Acknowledging
        → All IsRead published
        → ActsAlike fields seen m published r w
    unfolding consume_messages Bus.publish_batch Bus.publish
    entries-ActsAlike [] r w accepts acks reads = (r, refl)
    entries-ActsAlike ((id, event) ∷ published) r w accepts acks ((read, same), reads) =
        let (r1, e1) = dispatched (seen event) id r w accepts acks in
        let w1 = run_handlers handlers (seen event) w in
        let (r2, e2) = entries-ActsAlike published r1 w1 accepts acks reads in
        let step = publish_batch_step m (seen event) (read_all seen published) w same in
        (
          r2,
          consume_step id (fields event) (entries fields published) (seen event) (r, w) (r1, w1)
                read e1
              ∙ e2
              ∙ (λ i. (ok tt, (r2, (step i).1.1))),
        )

  IsCarried-IsRead :
      (m : Handlers W) (published : List (Text × TenantAwareEvent))
      → All (IsCarried m) published
      → All (IsRead (fields_of json) received m) published
        × All (IsRead (batch_fields_of json) received_of_batch m) published
  IsCarried-IsRead m [] carried = (tt, tt)
  IsCarried-IsRead m ((id, event) ∷ published) ((h, same), carried) =
      let (alone, batched) = deserialize_event-fields_of json undefined event h in
      let (rest, rest_batched) = IsCarried-IsRead m published carried in
      (((alone, same), rest), ((batched, same), rest_batched))

  -- The additions to streams that a batch sends, one for each of the entries.
  abbrev pub additions : List (Text × TenantAwareEvent) → List (Text × ℕ × List Value)
  additions published =
      map (λ p. (config.stream_prefix ++ p.1.event_type, config.max_len, batch_fields_of json p.1))
        published

  batch_additions :
      (published : List (Text × TenantAwareEvent))
      → map
          (λ (event : TenantAwareEvent).
            (config.stream_prefix ++ event.event_type, config.max_len, batch_fields_of json event))
          (map (λ p. p.1) published)
        ≡ additions published
  batch_additions [] = refl
  batch_additions (p ∷ published) = λ i.
      (config.stream_prefix ++ p.1.event_type, config.max_len, batch_fields_of json p.1)
      ∷ batch_additions published i

  -- As long as Redis takes what is sent to it, consuming the entries of published events acts on the
  -- world as publishing the events, as they are read back, on the in-memory bus with the same handlers
  -- does: every handler is called with every event, in the order of the entries, whichever of them throw,
  -- and consuming throws nothing. That is so for events that were published alone, and for a batch, which
  -- is sent to Redis as one addition for each of its entries.
  pub consume_messages-publish_batch :
      (m : Handlers W) (published : List (Text × TenantAwareEvent)) (r : redis.State) (w : W)
      → Accepting redis config message now
      → Acknowledging
      → All (IsCarried m) published
      → ActsAlike (fields_of json) received m published r w
        × ActsAlike (batch_fields_of json) received_of_batch m published r w
        × (publish_batch redis config json (map (λ p. p.1) published) r
            ≡ redis.exec (additions published) r)
  unfolding publish_batch
  consume_messages-publish_batch m published r w accepts acks carried =
      let (alone, batched) = IsCarried-IsRead m published carried in
      (
        entries-ActsAlike (fields_of json) received m published r w accepts acks alone,
        entries-ActsAlike (batch_fields_of json) received_of_batch m published r w accepts acks
            batched,
        ap (λ sent. redis.exec sent r) (batch_additions published),
      )

  consume_messages-stop :
      (before after : List Message) (id : Text) (bad : List Value) (x : Exception)
      (s s' : redis.State × W)
      → deserialize_event json undefined bad ≡ fail x
      → consume_messages redis config message now json undefined handlers stream_key before s
        ≡ (ok tt, s')
      → consume_messages redis config message now json undefined handlers stream_key
          (before ++ (id, bad) ∷ after)
          s
        ≡ (fail x, s')
  unfolding consume_messages
  consume_messages-stop [] after id bad x s s' b h = ground arith
  consume_messages-stop ((k, fields) ∷ before) after id bad x s s' b h =
      elim (Result-cases (deserialize_event json undefined fields)) [
        | inl (event, e) ↦
            let sent =
              dispatch_to_handlers redis config message now event handlers stream_key k s in
            elim (Result-cases sent.0) [
              | inl (tt, d) ↦
                  let step = λ (ms : List Message).
                    consume_step k fields ms event s sent.1 e (λ i. (d i, sent.1)) in
                  step (before ++ (id, bad) ∷ after)
                  ∙ consume_messages-stop before after id bad x sent.1 s' b (rw (step before) at h)
              | inr (y, d) ↦ ground arith
            ]
        | inr (y, e) ↦ ground arith
      ]

module _ (redis : Redis) (config : StreamConfig) (message : Exception → Text) (now : ℕ) {W : Type 0}
    (json : JsonCodec) (undefined : Undefined) (handler : EventHandler W)
    (others : List (EventHandler W)) (event_type : Text) where
  consume_type-stop :
      (stream : Text) (before after : List Message) (id : Text) (bad : List Value) (x : Exception)
      (rest : List (Text × List Message)) (r r' : redis.State) (w : W) (s' : redis.State × W)
      → redis.xreadgroup config.consumer_group (config.stream_prefix ++ event_type) r
        ≡ (ok (some ((stream, before ++ (id, bad) ∷ after) ∷ rest)), r')
      → deserialize_event json undefined bad ≡ fail x
      → consume_messages redis config message now json undefined
          (handler ∷ others)
          (config.stream_prefix ++ event_type)
          before
          (r', w)
        ≡ (ok tt, s')
      → consume_type redis config message now json undefined event_type (handler ∷ others) (r, w)
        ≡ (fail x, s')
  unfolding consume_type consume_results
  consume_type-stop stream before after id bad x rest r r' w s' read b h =
      let stop =
        consume_messages-stop redis config message now json undefined (handler ∷ others)
          (config.stream_prefix ++ event_type) before after id bad x (r', w) s' b h in
      ground arith

  -- A message whose fields no event can be read from stops its batch: once the messages before it are
  -- handled, it and those behind it, whatever they are, neither reach a handler nor are acknowledged,
  -- the streams read along with it are left too, and the handlers of the other types are served as if the
  -- batch had ended before it.
  pub consume_pending_messages-stop :
      (m : Handlers W) (stream : Text) (before after : List Message) (id : Text) (bad : List Value)
      (x : Exception) (rest : List (Text × List Message)) (r r' : redis.State) (w : W)
      (s' : redis.State × W)
      → redis.xreadgroup config.consumer_group (config.stream_prefix ++ event_type) r
        ≡ (ok (some ((stream, before ++ (id, bad) ∷ after) ∷ rest)), r')
      → deserialize_event json undefined bad ≡ fail x
      → consume_messages redis config message now json undefined
          (handler ∷ others)
          (config.stream_prefix ++ event_type)
          before
          (r', w)
        ≡ (ok tt, s')
      → consume_pending_messages redis config message now json undefined
          ((event_type, handler ∷ others) ∷ m)
          (r, w)
        ≡ consume_pending_messages redis config message now json undefined m s'
  unfolding consume_pending_messages
  consume_pending_messages-stop m stream before after id bad x rest r r' w s' read b h =
      ap
        (λ (end : Result (Unit {0}) × (redis.State × W)).
          consume_pending_messages redis config message now json undefined m end.1)
        (consume_type-stop stream before after id bad x rest r r' w s' read b h)
