-- ===== src/Audit/Recording/Outcomes.antt =====
-- The ways that audit/application/commands/record-audit-event can end.
use multi_tenant_saa_s_platf.Base.{
  ◌≡◌, inl, inr, ◌⊎◌, Option, [], ◌∷◌, ok, fail, Exception, arith, Result-cases,
}
use multi_tenant_saa_s_platf.Kernel.Context.{TenantContext}
use multi_tenant_saa_s_platf.Kernel.Repository.{Repository, guard_tenant_ownership}
use multi_tenant_saa_s_platf.Kernel.Repository.Isolation.{ActsFor, guard_tenant_ownership_iff}
use multi_tenant_saa_s_platf.Events.Envelope.{EventBus}
use multi_tenant_saa_s_platf.Audit.Event.{audit_column, to_orm}
use multi_tenant_saa_s_platf.Audit.Repository.{append}
use multi_tenant_saa_s_platf.Audit.Recording.{
  RecordAuditEventCommand, Supply, new_event, recorded_event, execute_record,
}

module _ (repo : Repository audit_column) (bus : EventBus) (store : Option TenantContext)
    (command : RecordAuditEventCommand) (supply : Supply) (t : repo.Table) (b : bus.State) where
  -- The one row of the event that the command asks for was inserted, for the command's tenant.
  abbrev pub IsRecorded : repo.Table → Type 0
  IsRecorded t' =
      ActsFor store command.tenant_id
      × (repo.insert (to_orm (new_event command supply) ∷ []) t ≡ (ok tt, t'))

  -- The three ways that recording an event can end: recorded and published, recorded and not published,
  -- or neither.
  abbrev pub Ends : Type 0
  Ends =
      ((t' : repo.Table) × (b' : bus.State) × IsRecorded t'
        × (bus.publish (recorded_event (new_event command supply)) b ≡ (ok tt, b'))
        × (execute_record repo bus store command supply (t, b)
            ≡ (ok supply.audit_event_id, (t', b'))))
      ⊎ ((t' : repo.Table) × (b' : bus.State) × (x : Exception) × IsRecorded t'
          × (bus.publish (recorded_event (new_event command supply)) b ≡ (fail x, b'))
          × (execute_record repo bus store command supply (t, b) ≡ (fail x, (t', b'))))
      ⊎ ((x : Exception) × (execute_record repo bus store command supply (t, b) ≡ (fail x, (t, b))))

  -- Recording an event ends in one of three ways: the row is inserted, for a request that acts for the
  -- command's tenant, and its event published, and the fresh id is given back; the row is inserted and
  -- stays, though its publication throws, which is what the caller sees; or nothing is inserted and
  -- nothing published.
  pub execute_record-cases : Ends
  unfolding execute_record append
  execute_record-cases = elim (Result-cases (guard_tenant_ownership store command.tenant_id)) [
    | inl (tt, g) ↦
        let own = (guard_tenant_ownership_iff store command.tenant_id).0 g in
        elim (Result-cases (repo.insert (to_orm (new_event command supply) ∷ []) t).0) [
          | inl (tt, i) ↦
              let t' = (repo.insert (to_orm (new_event command supply) ∷ []) t).1 in
              let sent = bus.publish (recorded_event (new_event command supply)) b in
              elim (Result-cases sent.0) [
                | inl (tt, p) ↦
                    inl (t', sent.1, (own, λ k. (i k, t')), λ k. (p k, sent.1), ground arith)
                | inr (x, p) ↦
                    inr
                      (inl (t', sent.1, x, (own, λ k. (i k, t')), λ k. (p k, sent.1), ground arith))
              ]
          | inr (x, i) ↦
              let t' = (repo.insert (to_orm (new_event command supply) ∷ []) t).1 in
              let same : t' ≡ t =
                repo.insert_rejected (to_orm (new_event command supply) ∷ []) t t' x
                  (ground arith) in
              inr (inr (x, ground arith))
        ]
    | inr (x, g) ↦ inr (inr (x, ground arith))
  ]
