-- ===== src/Workflow/Commands/Outcomes.antt =====
-- What triggering and cancelling leave behind.
use multi_tenant_saa_s_platf.Base.{
  ◌≡◌, inl, inr, true, false, Option, none, some, [], ◌∷◌, Text, Result, ok, fail, Exception, error,
  not_found, arith, Result-cases, Bool-cases,
}
use multi_tenant_saa_s_platf.Kernel.Context.{TenantContext}
use multi_tenant_saa_s_platf.Kernel.Repository.{Repository}
use multi_tenant_saa_s_platf.Kernel.Repository.Isolation.{ActsFor}
use multi_tenant_saa_s_platf.Events.Envelope.{EventBus}
use multi_tenant_saa_s_platf.Workflow.Definition
use multi_tenant_saa_s_platf.Workflow.Definition.{WorkflowDefinition}
use multi_tenant_saa_s_platf.Workflow.Execution
use multi_tenant_saa_s_platf.Workflow.Execution.{WorkflowExecution, is_terminal}
use multi_tenant_saa_s_platf.Workflow.Repositories.{
  execution_column, definition_column, find_execution, find_definition, save_execution,
}
use multi_tenant_saa_s_platf.Workflow.Repositories.Isolation.{
  find_execution-own, save_execution-own,
}
use multi_tenant_saa_s_platf.Workflow.Commands.{
  TriggerWorkflowCommand, TriggerWorkflowResult, CancelWorkflowExecutionCommand, Supply,
  triggered_event, new_execution, execute_trigger, require_execution, execute_cancel,
}

module _ (definitions : Repository definition_column) (executions : Repository execution_column)
    (bus : EventBus) (store : Option TenantContext) (command : TriggerWorkflowCommand)
    (supply : Supply) (d : definitions.Table) (t : executions.Table) (b : bus.State) where
  find_definition_reads :
      (id : Text) → (find_definition definitions store supply.loaded supply.loaded_again id d).1 ≡ d
  unfolding find_definition
  find_definition_reads id = ground arith

  -- A definition that is found and active.
  abbrev pub IsTriggerable : WorkflowDefinition → Type 0
  IsTriggerable definition =
      ((find_definition definitions store supply.loaded supply.loaded_again command.definition_id
          d).0
        ≡ ok (some definition))
      × (Definition.is_active definition ≡ true)

  -- A workflow that is triggered had a definition that the lookup found and that is active, and
  -- the command names the tenant that the request acts for; the new execution is saved, and the
  -- bus is what publishing the one event of the saved execution makes of it, without a failure.
  -- The definitions are as they were.
  pub execute_trigger-IsTriggerable :
      (result : TriggerWorkflowResult) (d' : definitions.Table) (t' : executions.Table)
      (b' : bus.State)
      → execute_trigger definitions executions bus store command supply ((d, t), b)
        ≡ (ok result, ((d', t'), b'))
      → (definition : WorkflowDefinition) × (saved : WorkflowExecution) × IsTriggerable definition
        × ActsFor store command.tenant_id
        × (save_execution executions store supply.loaded supply.loaded_again
              (new_execution command supply definition)
              t
            ≡ (ok saved, t'))
        × (bus.publish (triggered_event command supply definition saved) b ≡ (ok tt, b'))
        × (result.execution_id ≡ saved.id)
        × (d' ≡ d)
  unfolding execute_trigger new_execution
  execute_trigger-IsTriggerable result d' t' b' h =
      let reads = find_definition_reads command.definition_id in
      elim (Result-cases
        (find_definition definitions store supply.loaded supply.loaded_again command.definition_id
          d).0) [
            | inl (none, f) ↦ ground arith
            | inl (some definition, f) ↦ elim (Bool-cases (Definition.is_active definition)) [
              | inr inactive ↦ ground arith
              | inl active ↦
                  let e = new_execution command supply definition in
                  elim (Result-cases
                    (save_execution executions store supply.loaded supply.loaded_again e t).0) [
                      | inl (saved, s) ↦
                          let own =
                            (save_execution-own executions store supply.loaded supply.loaded_again e
                                saved t
                                (save_execution executions store supply.loaded supply.loaded_again e
                                  t).1).0
                              (λ i. (
                                s i,
                                (save_execution executions store supply.loaded supply.loaded_again e
                                    t).1,
                              )) in
                          elim (Result-cases
                            (bus.publish (triggered_event command supply definition saved) b).0) [
                              | inl (tt, p) ↦ (
                                definition,
                                saved,
                                (f, active),
                                own,
                                ground arith,
                                ground arith,
                                ground arith,
                                ground arith,
                              )
                              | inr (x, p) ↦ ground arith
                            ]
                      | inr (x, s) ↦ ground arith
                    ]
            ]
            | inr (x, f) ↦ ground arith
          ]

  -- Triggering for another tenant than the active one throws, and both tables and the bus stay as
  -- they were.
  pub foreign_trigger_refused :
      ¬ ActsFor store command.tenant_id
      → (x : Exception) × (execute_trigger definitions executions bus store command supply
            ((d, t), b)
          ≡ (fail x, ((d, t), b)))
  unfolding execute_trigger new_execution
  foreign_trigger_refused foreign =
      let reads = find_definition_reads command.definition_id in
      elim (Result-cases
        (find_definition definitions store supply.loaded supply.loaded_again command.definition_id
          d).0) [
            | inl (none, f) ↦ (not_found "WorkflowDefinition" command.definition_id, ground arith)
            | inl (some definition, f) ↦ elim (Bool-cases (Definition.is_active definition)) [
              | inr inactive ↦ (
                error (record {
                  template = "Workflow definition '{}' is not active";
                  values = definition.id ∷ [];
                }),
                ground arith,
              )
              | inl active ↦
                  let e = new_execution command supply definition in
                  let (x, s) =
                    (save_execution-own executions store supply.loaded supply.loaded_again e e t
                        t).1
                      foreign in
                  (x, ground arith)
            ]
            | inr (x, f) ↦ (x, ground arith)
          ]

module _ (executions : Repository execution_column) (store : Option TenantContext)
    (command : CancelWorkflowExecutionCommand) (supply : Supply) where
  abbrev pub found_execution : executions.Table → Result (Option WorkflowExecution)
  found_execution t =
      (find_execution executions store supply.loaded supply.loaded_again command.execution_id t).0

  -- Cancelling an execution that is found: in a terminal status the call throws the conflict that
  -- names it, and the table is as it was; in another one the table is what saving the execution
  -- that was found makes of it, once it is cancelled and with its tenant unchanged.
  pub execute_cancel-cases :
      (e : WorkflowExecution) (t : executions.Table)
      → found_execution t ≡ ok (some e)
      → (is_terminal e.status ≡ true
          → execute_cancel executions store command supply t ≡ (
            fail (Execution.bad_status "Cannot cancel execution in terminal status: {}" e.status),
            t,
          ))
        × (is_terminal e.status ≡ false
            → (e' : WorkflowExecution) × (Execution.cancel command.reason supply.now supply.touched
                  e
                ≡ ok e')
              × (e'.status ≡ Execution.cancelled)
              × (e'.tenant_id ≡ e.tenant_id)
              × ((execute_cancel executions store command supply t).1
                  ≡ (save_execution executions store supply.loaded supply.loaded_again e' t).1))
  unfolding execute_cancel require_execution Execution.cancel
  execute_cancel-cases e t found =
      let t' =
        (find_execution executions store supply.loaded supply.loaded_again command.execution_id
          t).1 in
      let (own, same, kept) =
        find_execution-own executions store supply.loaded supply.loaded_again command.execution_id t
          t' e (λ i. (found i, t')) in
      (
        λ terminal. ground arith,
        λ live. elim (Result-cases (Execution.cancel command.reason supply.now supply.touched e)) [
          | inl (e', c) ↦ (
            e',
            c,
            ground arith,
            ground arith,
            elim (Result-cases
                (save_execution executions store supply.loaded supply.loaded_again e' t).0) [
                  | inl (saved, w) ↦ ground arith
                  | inr (x, w) ↦ ground arith
                ],
          )
          | inr (x, c) ↦ ground arith
        ],
      )
