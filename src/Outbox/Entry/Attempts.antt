-- ===== src/Outbox/Entry/Attempts.antt =====
-- The attempts and the status of an entry of the outbox (outbox-entry.entity.ts).
use multi_tenant_saa_s_platf.Base.{
  ℕ, ◌+◌, ◌≤◌, ◌<◌, ◌≡◌, inl, inr, Bool-cases, Text, arith, leb, is_some, true, List, [], ◌∷◌,
  length,
}
use multi_tenant_saa_s_platf.Outbox.Entry.{
  OutboxEntry, pending, processed, failed, CreateParams, create, mark_processed,
  record_attempt_failure,
}

-- The methods that change an entry, on an entry of any status: they check none.
pub data Step (max_attempts : ℕ) : OutboxEntry → OutboxEntry → Type 0 where
  forwarded : (e : OutboxEntry) (now : ℕ) → Step max_attempts e (mark_processed now e)
  refused :
      (e : OutboxEntry) (error : Text)
      → Step max_attempts e (record_attempt_failure error max_attempts e)

pub data Reachable (max_attempts : ℕ) : OutboxEntry → Type 0 where
  created :
      (params : CreateParams) (id : Text) (now now' : ℕ)
      → Reachable max_attempts (create params id now now')
  stepped :
      (e e' : OutboxEntry)
      → Reachable max_attempts e
      → Step max_attempts e e'
      → Reachable max_attempts e'

-- A pending entry has attempts left, a failed one has used them all, one that was forwarded has its time
-- set, and one that was refused has the last refusal's message.
unfoldable pub IsSound : ℕ → OutboxEntry → Type 0
IsSound max_attempts e =
    (e.status ≡ pending → e.attempts < max_attempts)
    × (e.status ≡ failed → max_attempts ≤ e.attempts)
    × (e.status ≡ processed → is_some e.processed_at ≡ true)
    × (0 < e.attempts → is_some e.last_error ≡ true)

Step-IsSound :
    (max_attempts : ℕ) (e e' : OutboxEntry)
    → Step max_attempts e e'
    → IsSound max_attempts e
    → IsSound max_attempts e'
unfolding IsSound mark_processed record_attempt_failure
Step-IsSound m _ _ (forwarded e now) sound = ground arith
Step-IsSound m _ _ (refused e error) sound = ground arith

-- Whichever methods are called, in any order, on an entry that was created, as long as at least one
-- attempt is allowed: pending it has attempts left, failed it has made at least the number that is
-- allowed, processed it has the time of that, and after a refusal it has a message.
pub entry-IsSound :
    (max_attempts : ℕ) (e : OutboxEntry)
    → 0 < max_attempts
    → Reachable max_attempts e
    → IsSound max_attempts e
unfolding IsSound create
entry-IsSound m _ some_allowed (created params id now now') = ground arith
entry-IsSound m _ some_allowed (stepped e e' r s) =
    Step-IsSound m e e' s (entry-IsSound m e some_allowed r)

-- The entry after a row of refusals.
unfoldable pub refuse_all : ℕ → List Text → OutboxEntry → OutboxEntry
refuse_all max_attempts [] e = e
refuse_all max_attempts (error ∷ errors) e =
    refuse_all max_attempts errors (record_attempt_failure error max_attempts e)

refuse_all-attempts :
    (m : ℕ) (errors : List Text) (e : OutboxEntry)
    → (refuse_all m errors e).attempts ≡ e.attempts + length errors
unfolding refuse_all record_attempt_failure
refuse_all-attempts m [] e = omega arith
refuse_all-attempts m (x ∷ errors) e =
    ground (arith, refuse_all-attempts m errors (record_attempt_failure x m e))

refuse_all-failed :
    (m : ℕ) (errors : List Text) (e : OutboxEntry)
    → e.status ≡ failed
    → (refuse_all m errors e).status ≡ failed
unfolding refuse_all record_attempt_failure
refuse_all-failed m [] e h = h
refuse_all-failed m (x ∷ errors) e h =
    refuse_all-failed m errors (record_attempt_failure x m e) (ground arith)

-- A pending entry that is only ever refused is pending as long as attempts are left, and failed once
-- they are used up.
pub refuse_all-status :
    (max_attempts : ℕ) (errors : List Text) (e : OutboxEntry)
    → e.status ≡ pending
    → e.attempts < max_attempts
    → (e.attempts + length errors < max_attempts
        → (refuse_all max_attempts errors e).status ≡ pending)
      × (max_attempts ≤ e.attempts + length errors
          → (refuse_all max_attempts errors e).status ≡ failed)
unfolding refuse_all record_attempt_failure
refuse_all-status m [] e h left = ground arith
refuse_all-status m (x ∷ errors) e h left =
    let e' = record_attempt_failure x m e in
    elim (Bool-cases (leb m (e.attempts + 1))) [
      | inl last ↦ (λ more. ground arith, λ over. refuse_all-failed m errors e' (ground arith))
      | inr more ↦
          let (early, late) = refuse_all-status m errors e' (ground arith) (ground arith) in
          (λ h1. early (ground arith), λ h1. late (ground arith))
    ]
