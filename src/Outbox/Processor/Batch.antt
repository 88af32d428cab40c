-- ===== src/Outbox/Processor/Batch.antt =====
-- What a batch of outbox-processor.service.ts does to the backbone, to the entries and to the table.
use multi_tenant_saa_s_platf.Base.{
  ℕ, suc, ◌≤◌, ◌≡◌, refl, inl, inr, true, false, leb, Bool-cases, List, [], ◌∷◌, map, Text, codes,
  Result, ok, fail, Exception, arith, Result-cases, length, length-map, all, All, ltb,
  if◌then◌else◌, some, ◌+◌, ◌===◌,
}
use multi_tenant_saa_s_platf.Base.Actions.{Action}
use multi_tenant_saa_s_platf.Kernel.Repository.{matches}
use multi_tenant_saa_s_platf.Events.Ingest.{IngestCommand}
use multi_tenant_saa_s_platf.Outbox.Entry.{
  OutboxEntry, OutboxEntryStatus, pending, processed, failed, mark_processed,
  record_attempt_failure,
}
use multi_tenant_saa_s_platf.Outbox.Store.{
  OutboxTable, OutboxEntryOrm, FindOptions, find_pending, save, to_domain, outbox_column,
  entry_status_value,
}
use multi_tenant_saa_s_platf.Outbox.Processor.{
  command_of, after_attempt, process_entry, process_entries, process_batch, batch_size,
}

value_pending :
    (status : OutboxEntryStatus)
    → (entry_status_value status === codes "pending") ≡ true
    → status ≡ pending
unfolding ◌===◌ codes entry_status_value
value_pending pending h = refl
value_pending processed h = ground arith
value_pending failed h = ground arith

-- The rows that are found are pending.
all_pending :
    (now : ℕ) (rows : List OutboxEntryOrm)
    → all (matches outbox_column (("status", codes "pending") ∷ [])) rows ≡ true
    → All (λ e. e.status ≡ pending) (map (to_domain now) rows)
unfolding matches outbox_column to_domain
all_pending now [] h = tt
all_pending now (row ∷ rows) h =
    (value_pending row.status (ground arith), all_pending now rows (ground arith))

find_pending-All :
    (repo : OutboxTable) (limit now : ℕ) (t : repo.Table) (entries : List OutboxEntry)
    → (find_pending repo limit now t).0 ≡ ok entries
    → (length entries ≤ limit) × All (λ e. e.status ≡ pending) entries
unfolding find_pending
find_pending-All repo limit now t entries found =
    let options : FindOptions = record {
      conditions = ("status", codes "pending") ∷ [];
      order_asc = "createdAt";
      take = limit;
    } in
    elim (Result-cases (repo.find options t)) [
      | inl (rows, e) ↦
          let same : map (to_domain now) rows ≡ entries = ground arith in
          rw (← same) (
            rw (length-map (to_domain now) rows) (repo.find_take options t rows e),
            all_pending now rows (repo.find_fits options t rows e),
          )
      | inr (x, e) ↦ ground arith
    ]

module _ (repo : OutboxTable) {C : Type 0} (ingest : IngestCommand → Action C (Unit {0}))
    (message : Exception → Text) where
  -- The backbone after it was offered the entries in their order.
  unfoldable pub offer_all : List OutboxEntry → C → C
  offer_all [] c = c
  offer_all (entry ∷ entries) c = offer_all entries (ingest (command_of entry) c).1

  -- The entries after their attempts, where an attempt sees those before it.
  unfoldable pub outcomes : (ℕ → ℕ) → ℕ → List OutboxEntry → C → List OutboxEntry
  outcomes clock i [] c = []
  outcomes clock i (entry ∷ entries) c =
      after_attempt repo ingest message (clock i) entry (ingest (command_of entry) c).0
      ∷ outcomes clock (suc i) entries (ingest (command_of entry) c).1

  -- The table after the entries were saved in their order, whether a save fails or not.
  unfoldable pub save_all : List OutboxEntry → repo.Table → repo.Table
  save_all [] t = t
  save_all (entry ∷ entries) t = save_all entries (save repo entry t).1

  process_entries-split :
      (clock : ℕ → ℕ) (i : ℕ) (entries : List OutboxEntry) (t : repo.Table) (c : C)
      → process_entries repo ingest message clock i entries (t, c)
        ≡ (save_all (outcomes clock i entries c) t, offer_all entries c)
  unfolding process_entries process_entry save_all outcomes offer_all
  process_entries-split clock i [] t c = refl
  process_entries-split clock i (entry ∷ entries) t c =
      process_entries-split clock (suc i) entries
        (save repo
          (after_attempt repo ingest message (clock i) entry (ingest (command_of entry) c).0) t).1
        (ingest (command_of entry) c).1

  -- A batch never throws. Where the search for entries fails, nothing is offered or written. Where it
  -- finds some, the backbone is offered every one of them, once and in their order, whatever fails on the
  -- way; the table holds what saving each entry's outcome makes of it.
  pub process_batch-split :
      (clock : ℕ → ℕ) (now : ℕ) (t : repo.Table) (c : C)
      → ((entries : List OutboxEntry)
          → (find_pending repo batch_size now t).0 ≡ ok entries
          → process_batch repo ingest message clock now (t, c)
            ≡ (ok tt, (save_all (outcomes clock 0 entries c) t, offer_all entries c)))
        × ((x : Exception)
            → (find_pending repo batch_size now t).0 ≡ fail x
            → process_batch repo ingest message clock now (t, c) ≡ (ok tt, (t, c)))
  unfolding process_batch find_pending
  process_batch-split clock now t c = (
    λ entries found. ground (arith, process_entries-split clock 0 entries t c),
    λ x failed. ground arith,
  )

  -- A pending entry that the backbone took is processed, at some time, and nothing else of it changes. One
  -- that it refused has one more attempt and the refusal's message; it is failed when that attempt was the
  -- fifth, and pending before.
  abbrev pub Attempted : OutboxEntry → Result (Unit {0}) → OutboxEntry → Type 0
  Attempted e (ok tt) e' =
      (now : ℕ) × (e' ≡ record e { status = processed; processed_at = some now })
  Attempted e (fail x) e' = e' ≡ record e {
    attempts = e.attempts + 1;
    last_error = some (message x);
    status = if ltb (e.attempts + 1) 5 then pending else failed;
  }

  -- The backbone is offered the entries, the first of them first, from a state to a state; each of them
  -- becomes what the answer to its own offer makes of it.
  abbrev pub AllAttempted : List OutboxEntry → List OutboxEntry → C → C → Type 0
  AllAttempted [] [] c c' = c' ≡ c
  AllAttempted (e ∷ es) (e' ∷ es') c c' =
      Attempted e (ingest (command_of e) c).0 e'
      × AllAttempted es es' (ingest (command_of e) c).1 c'
  AllAttempted [] (e' ∷ es') c c' = ⊥
  AllAttempted (e ∷ es) [] c c' = ⊥

  after_attempt-Attempted :
      (now : ℕ) (e : OutboxEntry) (result : Result (Unit {0}))
      → e.status ≡ pending
      → Attempted e result (after_attempt repo ingest message now e result)
  unfolding after_attempt mark_processed record_attempt_failure
  after_attempt-Attempted now e (ok tt) h = (now, refl)
  after_attempt-Attempted now e (fail x) h = elim (Bool-cases (ltb (e.attempts + 1) 5)) [
    | inl left ↦ let used : leb 5 (e.attempts + 1) ≡ false = ground arith in rw (left, used, h) refl
    | inr used ↦ let done : leb 5 (e.attempts + 1) ≡ true = ground arith in rw (used, done) refl
  ]

  outcomes-AllAttempted :
      (clock : ℕ → ℕ) (i : ℕ) (entries : List OutboxEntry) (c : C)
      → All (λ e. e.status ≡ pending) entries
      → AllAttempted entries (outcomes clock i entries c) c (offer_all entries c)
  unfolding outcomes offer_all
  outcomes-AllAttempted clock i [] c h = refl
  outcomes-AllAttempted clock i (e ∷ entries) c h = (
    after_attempt-Attempted (clock i) e (ingest (command_of e) c).0 h.0,
    outcomes-AllAttempted clock (suc i) entries (ingest (command_of e) c).1 h.1,
  )

  -- A batch that finds entries handles at most fifty, which are all pending. It leaves the table that
  -- saving one outcome for each of them, in their order, makes: an entry that the backbone took is
  -- processed, and one that it refused has one more attempt and the refusal's message, and is failed if
  -- that was its fifth attempt and pending otherwise.
  pub process_batch-AllAttempted :
      (clock : ℕ → ℕ) (now : ℕ) (t : repo.Table) (c : C) (entries : List OutboxEntry)
      → (find_pending repo batch_size now t).0 ≡ ok entries
      → (length entries ≤ 50)
        × All (λ e. e.status ≡ pending) entries
        × ((after : List OutboxEntry) × (c' : C) × AllAttempted entries after c c'
            × (process_batch repo ingest message clock now (t, c)
                ≡ (ok tt, (save_all after t, c'))))
  process_batch-AllAttempted clock now t c entries found =
      let (few, waiting) = find_pending-All repo batch_size now t entries found in
      (
        few,
        waiting,
        (
          outcomes clock 0 entries c,
          offer_all entries c,
          outcomes-AllAttempted clock 0 entries c waiting,
          (process_batch-split clock now t c).0 entries found,
        ),
      )
