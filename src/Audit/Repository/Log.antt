-- ===== src/Audit/Repository/Log.antt =====
-- The log of audit/infrastructure/persistence/audit-event.repository.ts after `append` and `appendBatch`.
use multi_tenant_saa_s_platf.Base.{
  ℕ, ◌+◌, ◌≡◌, ◌≢◌, ◌↔◌, refl, inl, inr, Bool, true, false, Option, none, some, List, [], ◌∷◌, map,
  Text, ok, fail, Exception, arith, Result-cases, All, keep, length, any, text_eq_iff,
}
use multi_tenant_saa_s_platf.Kernel.Context.{TenantContext}
use multi_tenant_saa_s_platf.Kernel.Repository.{
  Repository, Where, matches, scoped_where, require_tenant_id, guard_tenant_ownership,
}
use multi_tenant_saa_s_platf.Kernel.Repository.Isolation.{
  ActsFor, require_tenant_id_iff, guard_tenant_ownership_iff, scoped_where_iff,
}
use multi_tenant_saa_s_platf.Audit.Event.{
  AuditEvent, AuditEventOrm, audit_column, audit_event_id, to_orm,
}
use multi_tenant_saa_s_platf.Audit.Repository.{append, append_batch, check_tenants, find_by_id}

none_kept : {E : Type 0} (p : E → Bool) (es : List E) → any p es ≡ false → length (keep p es) ≡ 0
none_kept p [] h = refl
none_kept p (e ∷ es) h = ground (arith, none_kept p es)

check_tenants_iff :
    (tenant : Text) (events : List AuditEvent)
    → (check_tenants tenant events ≡ ok tt) ↔ All (λ e. e.tenant_id ≡ tenant) events
unfolding check_tenants
check_tenants_iff tenant [] = (λ h. tt, λ h. refl)
check_tenants_iff tenant (e ∷ events) =
    let rest = check_tenants_iff tenant events in
    let own = text_eq_iff e.tenant_id tenant in
    (λ h. (ground arith, rest.0 (ground arith)), λ h. ground (arith, rest.1 h.1))

module _ (repo : Repository audit_column) (store : Option TenantContext) where
  -- The number of rows that a test accepts grows by that of the new rows.
  abbrev pub Grown : List AuditEvent → repo.Table → repo.Table → Type 0
  Grown events t t' =
      (p : AuditEventOrm → Bool)
      → length (keep p (repo.rows t'))
        ≡ length (keep p (repo.rows t)) + length (keep p (map to_orm events))

  one_fits :
      (e : AuditEvent) (w : Where)
      → ActsFor store e.tenant_id
      → scoped_where store (("id", audit_event_id e) ∷ []) ≡ ok w
      → length (keep (matches audit_column w) (map to_orm (e ∷ []))) ≡ 1
  unfolding to_orm audit_column matches
  one_fits e w acts c =
      let fit : matches audit_column w (to_orm e) ≡ true =
        (scoped_where_iff audit_column (to_orm e) store (("id", audit_event_id e) ∷ []) w
            e.tenant_id acts refl c).1
          (refl, ground (arith, text_eq_iff (audit_event_id e) (audit_event_id e))) in
      ground arith

  lookup_present :
      (e : AuditEvent) (t t' : repo.Table) (now now' : ℕ) (t'' : repo.Table)
      → ActsFor store e.tenant_id
      → Grown (e ∷ []) t t'
      → find_by_id repo store now now' (audit_event_id e) t' ≢ (ok none, t'')
  unfolding find_by_id
  lookup_present e t t' now now' t'' acts grown h =
      elim (Result-cases (scoped_where store (("id", audit_event_id e) ∷ []))) [
        | inl (w, c) ↦ elim (Result-cases (repo.find_one w t')) [
          | inl (none, f) ↦
              let absent =
                none_kept (matches audit_column w) (repo.rows t') (repo.find_one_none w t' f) in
              let more = grown (matches audit_column w) in
              let one = one_fits e w acts c in omega arith
          | inl (some orm, f) ↦ ground arith
          | inr (x, f) ↦ ground arith
        ]
        | inr (x, c) ↦ ground arith
      ]

  -- An event can only be appended for a request that acts for its tenant: for any other the call throws
  -- and the log stays as it was. What is appended is given back as it is, the number of rows that a
  -- test accepts grows by that of the new row alone, and a lookup by the event's id, in the log as it is
  -- then, gives no absent event.
  pub append-find_by_id :
      (e : AuditEvent) (t : repo.Table)
      → ((saved : AuditEvent) (t' : repo.Table)
          → append repo store e t ≡ (ok saved, t')
          → ActsFor store e.tenant_id
            × (saved ≡ e)
            × Grown (e ∷ []) t t'
            × ((now now' : ℕ) (t'' : repo.Table)
                → find_by_id repo store now now' (audit_event_id e) t' ≢ (ok none, t'')))
        × (¬ ActsFor store e.tenant_id → (x : Exception) × (append repo store e t ≡ (fail x, t)))
  unfolding append
  append-find_by_id e t = elim (Result-cases (guard_tenant_ownership store e.tenant_id)) [
    | inl (tt, g) ↦
        let own = (guard_tenant_ownership_iff store e.tenant_id).0 g in
        (
          λ saved t' h. elim (Result-cases (repo.insert (map to_orm (e ∷ [])) t).0) [
            | inl (tt, i) ↦
                let grown : Grown (e ∷ []) t t' =
                  repo.insert_adds (map to_orm (e ∷ [])) t t' (ground arith) in
                (
                  own,
                  ground arith,
                  grown,
                  λ now now' t''. lookup_present e t t' now now' t'' own grown,
                )
            | inr (x, i) ↦ ground arith
          ],
          λ foreign. absurd (foreign own),
        )
    | inr (x, g) ↦ (λ saved t' h. ground arith, λ foreign. (x, ground arith))
  ]

  own-All :
      (tenant : Text) (events : List AuditEvent)
      → require_tenant_id store ≡ ok tenant
      → All (λ e. e.tenant_id ≡ tenant) events
      → All (λ e. ActsFor store e.tenant_id) events
  own-All tenant [] r h = tt
  own-All tenant (e ∷ events) r h =
      (rw h.0 ((require_tenant_id_iff store tenant).0 r), own-All tenant events r h.1)

  same-All :
      (tenant : Text) (events : List AuditEvent)
      → require_tenant_id store ≡ ok tenant
      → All (λ e. ActsFor store e.tenant_id) events
      → All (λ e. e.tenant_id ≡ tenant) events
  same-All tenant [] r h = tt
  same-All tenant (e ∷ events) r h =
      let own = (require_tenant_id_iff store e.tenant_id).1 h.0 in
      (ground arith, same-All tenant events r h.1)

  -- A batch is stored as a whole or not at all. Where it is stored, the request acts for the tenant of
  -- each of its events, and the number of rows that a test accepts grows by that of the new rows alone;
  -- where the call fails, the log stays as it was; and a batch of the request's own tenant is one insert.
  pub append_batch-Grown :
      (events : List AuditEvent) (t t' : repo.Table)
      → (append_batch repo store events t ≡ (ok tt, t')
          → All (λ e. ActsFor store e.tenant_id) events × Grown events t t')
        × ((x : Exception) → append_batch repo store events t ≡ (fail x, t') → t' ≡ t)
        × (events ≢ []
            → All (λ e. ActsFor store e.tenant_id) events
            → append_batch repo store events t ≡ repo.insert (map to_orm events) t)
  unfolding append_batch
  append_batch-Grown [] t t' = (
    λ h. let same : t ≡ t' = ground arith in (tt, rw (← same) (λ p. ground arith)),
    λ x h. ground arith,
    λ n. absurd (n refl),
  )
  append_batch-Grown (e ∷ events) t t' = elim (Result-cases (require_tenant_id store)) [
    | inl (tenant, r) ↦ elim (Result-cases (check_tenants tenant (e ∷ events))) [
      | inl (tt, c) ↦ (
        λ h. (
          own-All tenant (e ∷ events) r ((check_tenants_iff tenant (e ∷ events)).0 c),
          repo.insert_adds (map to_orm (e ∷ events)) t t' (ground arith),
        ),
        λ x h. repo.insert_rejected (map to_orm (e ∷ events)) t t' x (ground arith),
        λ n a. ground arith,
      )
      | inr (x, c) ↦ (
        λ h. ground arith,
        λ y h. ground arith,
        λ n a.
            let passed =
              (check_tenants_iff tenant (e ∷ events)).1 (same-All tenant (e ∷ events) r a) in
            ground arith,
      )
    ]
    | inr (x, r) ↦ (
      λ h. ground arith,
      λ y h. ground arith,
      λ n a. let passed = (require_tenant_id_iff store e.tenant_id).1 a.0 in ground arith,
    )
  ]
