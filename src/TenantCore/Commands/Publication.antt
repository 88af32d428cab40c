-- ===== src/TenantCore/Commands/Publication.antt =====
-- What the handlers publish. `provision` and `save` give back an aggregate made anew from its row,
-- and the loop runs over that one's events.
use multi_tenant_saa_s_platf.Base.{
  ◌≡◌, inl, inr, Option, none, some, [], Text, ok, arith, CaseMapping, Result-cases, get_or, codes,
  true, false,
}
use multi_tenant_saa_s_platf.Kernel.Context.{TenantContext}
use multi_tenant_saa_s_platf.Kernel.Repository.{Repository}
use multi_tenant_saa_s_platf.Events.Envelope.{EventBus}
use multi_tenant_saa_s_platf.TenantCore.Organization
use multi_tenant_saa_s_platf.TenantCore.Organization.{Organization}
use multi_tenant_saa_s_platf.TenantCore.Repository.{
  organization_column, save, provision, exists_by_slug, find_by_id,
}
use multi_tenant_saa_s_platf.TenantCore.Repository.Isolation.{save_no_events, provision_no_events}
use multi_tenant_saa_s_platf.TenantCore.Commands.{
  CreateOrganizationCommand, SuspendOrganizationCommand, Supply, World, publish_all, execute_create,
  execute_suspend, params_of,
}

module _ (case : CaseMapping) (repo : Repository organization_column) (bus : EventBus) where
  publish_none :
      (event_type : Text) (o : Organization) (w : World case repo bus)
      → o.domain_events ≡ []
      → publish_all case repo bus event_type o w ≡ (ok tt, w)
  unfolding publish_all
  publish_none event_type o w silent = rw silent

  -- The part of the handler that follows the check of the slug.
  provision_tail-silent :
      (command : CreateOrganizationCommand) (supply : Supply) (t : repo.Table) (b : bus.State)
      → (exists_by_slug repo command.slug t).0 ≡ ok false
      → (execute_create case repo bus command supply (t, b)).1.1 ≡ b
  unfolding execute_create
  provision_tail-silent command supply t b free =
      elim (Result-cases (
        Organization.create case (params_of command supply) supply.organization_id supply.now
          supply.touched supply.event_id supply.event_time)) [
            | inl (o, made) ↦
                let t' = (exists_by_slug repo command.slug t).1 in
                elim (Result-cases (provision case repo o t').0) [
                  | inl (saved, stored) ↦ ground (
                    arith,
                    provision_no_events case repo o saved t' (provision case repo o t').1
                        (λ i. (stored i, (provision case repo o t').1)),
                    publish_none (codes "tenant.created") saved ((provision case repo o t').1, b),
                  )
                  | inr (x, stored) ↦ ground arith
                ]
            | inr (x, made) ↦ ground arith
          ]

  -- Whatever the command and however it ends, creating an organization leaves the event bus as it
  -- was: `tenant.created` is never published.
  pub execute_create-silent :
      (command : CreateOrganizationCommand) (supply : Supply) (t : repo.Table) (b : bus.State)
      → (execute_create case repo bus command supply (t, b)).1.1 ≡ b
  unfolding execute_create
  execute_create-silent command supply t b =
      elim (Result-cases (exists_by_slug repo command.slug t).0) [
        | inl (true, e) ↦ ground arith
        | inl (false, e) ↦ provision_tail-silent command supply t b e
        | inr (x, e) ↦ ground arith
      ]

  module _ (store : Option TenantContext) where
    save_tail-silent :
        (command : SuspendOrganizationCommand) (supply : Supply) (t : repo.Table) (b : bus.State)
        (o : Organization)
        → (find_by_id case repo store command.organization_id t).0 ≡ ok (some o)
        → (execute_suspend case repo bus store command supply (t, b)).1.1 ≡ b
    unfolding execute_suspend
    save_tail-silent command supply t b o found =
        elim (Result-cases (
          Organization.suspend command.reason (get_or command.actor_id (codes "system"))
            command.correlation_id supply.now supply.touched supply.event_id supply.event_time o)) [
              | inl (o', done) ↦
                  let t' = (find_by_id case repo store command.organization_id t).1 in
                  elim (Result-cases (save case repo store o' t').0) [
                    | inl (saved, stored) ↦ ground (
                      arith,
                      save_no_events case repo store o' saved t' (save case repo store o' t').1
                          (λ i. (stored i, (save case repo store o' t').1)),
                      publish_none (codes "tenant.suspended") saved
                          ((save case repo store o' t').1, b),
                    )
                    | inr (x, stored) ↦ ground arith
                  ]
              | inr (x, done) ↦ ground arith
            ]

    -- Whatever the command and however it ends, suspending an organization leaves the event bus as
    -- it was: `tenant.suspended` is never published.
    pub execute_suspend-silent :
        (command : SuspendOrganizationCommand) (supply : Supply) (t : repo.Table) (b : bus.State)
        → (execute_suspend case repo bus store command supply (t, b)).1.1 ≡ b
    unfolding execute_suspend
    execute_suspend-silent command supply t b =
        elim (Result-cases (find_by_id case repo store command.organization_id t).0) [
          | inl (none, e) ↦ ground arith
          | inl (some o, e) ↦ save_tail-silent command supply t b o e
          | inr (x, e) ↦ ground arith
        ]
