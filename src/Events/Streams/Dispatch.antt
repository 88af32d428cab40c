-- ===== src/Events/Streams/Dispatch.antt =====
-- The acknowledgements and the dead letters of `dispatchToHandlers` of redis-streams.event-bus.ts.
use multi_tenant_saa_s_platf.Base.{
  ℕ, ◌≡◌, refl, ◌&&◌, inl, inr, Bool, true, false, List, [], ◌∷◌, ◌++◌, Text, codes, ok, fail,
  Exception, arith, Result-cases, is_empty,
}
use multi_tenant_saa_s_platf.Base.Actions.{on_first}
use multi_tenant_saa_s_platf.Events.Envelope.{TenantAwareEvent}
use multi_tenant_saa_s_platf.Events.Bus.{EventHandler, run_handlers}
use multi_tenant_saa_s_platf.Events.Streams.{
  Redis, StreamConfig, DeadLetter, letter_of, send_to_dead_letter_stream, run_all,
  dispatch_to_handlers,
}

module _ (redis : Redis) (config : StreamConfig) (message : Exception → Text) (now : ℕ) where
  -- The stream after letters were added in their order.
  unfoldable pub add_all : List DeadLetter → redis.State → redis.State
  add_all [] r = r
  add_all (l ∷ ls) r = add_all ls (redis.xadd (config.stream_prefix ++ codes "dlq") l r).1

  -- Every letter can be added.
  abbrev pub Accepting : Type 0
  Accepting = (key : Text) (l : DeadLetter) (r : redis.State) → (redis.xadd key l r).0 ≡ ok tt

  module _ {W : Type 0} where
    -- The letters for the handlers that fail, each in the world that those before it have left.
    unfoldable pub letters : TenantAwareEvent → List (EventHandler W) → W → List DeadLetter
    letters event [] w = []
    letters event (handler ∷ handlers) w = elim (handler.handle event w).0 [
      | ok done ↦ letters event handlers (handler.handle event w).1
      | fail e ↦
          letter_of redis config message now event handler.handler_name e
          ∷ letters event handlers (handler.handle event w).1
    ]

    run_all-letters :
        (event : TenantAwareEvent) (handlers : List (EventHandler W)) (all_succeeded : Bool)
        (r : redis.State) (w : W)
        → Accepting
        → run_all redis config message now event handlers all_succeeded (r, w) ≡ (
          ok (all_succeeded && is_empty (letters event handlers w)),
          (add_all (letters event handlers w) r, run_handlers handlers event w),
        )
    unfolding run_all letters add_all run_handlers send_to_dead_letter_stream
    run_all-letters event [] true r w h = refl
    run_all-letters event [] false r w h = refl
    run_all-letters event (handler ∷ handlers) b r w h =
        elim (Result-cases (handler.handle event w).0) [
          | inl (done, e) ↦
              ground (arith, run_all-letters event handlers b r (handler.handle event w).1 h)
          | inr (x, e) ↦
              let l = letter_of redis config message now event handler.handler_name x in
              let key = config.stream_prefix ++ codes "dlq" in
              ground (
                arith,
                h key l r,
                run_all-letters event handlers false (redis.xadd key l r).1
                    (handler.handle event w).1 h,
              )
        ]

    -- As long as the dead-letter stream accepts its entries, every handler is called, whichever of the
    -- others fail, and there is one dead letter for each failure, in their order; the message is
    -- acknowledged if no handler fails, and is not if one does.
    pub dispatch_to_handlers-letters :
        (event : TenantAwareEvent) (handlers : List (EventHandler W)) (stream_key message_id : Text)
        (r : redis.State) (w : W)
        → Accepting
        → (letters event handlers w ≡ []
            → dispatch_to_handlers redis config message now event handlers stream_key message_id
                (r, w)
              ≡ on_first
                  (redis.xack stream_key config.consumer_group message_id)
                  (r, run_handlers handlers event w))
          × (is_empty (letters event handlers w) ≡ false
              → dispatch_to_handlers redis config message now event handlers stream_key message_id
                  (r, w)
                ≡ (ok tt, (add_all (letters event handlers w) r, run_handlers handlers event w)))
    unfolding dispatch_to_handlers add_all
    dispatch_to_handlers-letters event handlers stream_key message_id r w h =
        let run = run_all-letters event handlers true r w h in
        (λ none_failed. ground arith, λ some_failed. ground arith)
