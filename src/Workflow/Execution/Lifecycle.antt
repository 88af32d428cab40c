-- ===== src/Workflow/Execution/Lifecycle.antt =====
-- The states that an execution goes through.
use multi_tenant_saa_s_platf.Base.{ℕ, ◌≡◌, ◌≢◌, true, Option, none, Text, ok, arith, is_some}
use multi_tenant_saa_s_platf.Workflow.Execution.{
  WorkflowExecution, pending, running, completed, failed, CreateParams, create, start, complete,
  fail_with, cancel, is_terminal,
}

-- What the operations do to an execution, where they do not throw.
pub data Step : WorkflowExecution → WorkflowExecution → Type 0 where
  started : (e e' : WorkflowExecution) (now touched : ℕ) → start now touched e ≡ ok e' → Step e e'
  finished : (e : WorkflowExecution) (now touched : ℕ) → Step e (complete now touched e)
  broken :
      (e : WorkflowExecution) (message : Text) (now touched : ℕ)
      → Step e (fail_with message now touched e)
  stopped :
      (e e' : WorkflowExecution) (reason : Option Text) (now touched : ℕ)
      → cancel reason now touched e ≡ ok e'
      → Step e e'

pub data Reaches (first : WorkflowExecution) : WorkflowExecution → Type 0 where
  here : Reaches first first
  stepped : (e e' : WorkflowExecution) → Reaches first e → Step e e' → Reaches first e'

-- A pending execution has no times; a running one has started and not completed; one in a terminal
-- status has completed, and with an error message if it failed.
unfoldable pub IsSound : WorkflowExecution → Type 0
IsSound e =
    (e.status ≡ pending → (e.started_at ≡ none) × (e.completed_at ≡ none))
    × (e.status ≡ running → (is_some e.started_at ≡ true) × (e.completed_at ≡ none))
    × (is_terminal e.status ≡ true → is_some e.completed_at ≡ true)
    × (e.status ≡ failed → is_some e.error_message ≡ true)

Step-IsSound : (e e' : WorkflowExecution) → Step e e' → IsSound e → IsSound e'
unfolding IsSound start complete fail_with cancel
Step-IsSound _ _ (started e e' now touched h) sound = ground arith
Step-IsSound _ _ (finished e now touched) sound = ground arith
Step-IsSound _ _ (broken e message now touched) sound = ground arith
Step-IsSound _ _ (stopped e e' reason now touched h) sound = ground arith

Reaches-IsSound : (first e : WorkflowExecution) → IsSound first → Reaches first e → IsSound e
Reaches-IsSound first _ sound here = sound
Reaches-IsSound first _ sound (stepped e e' r s) =
    Step-IsSound e e' s (Reaches-IsSound first e sound r)

-- Whatever is done to an execution that was created with neither the time of a start nor that of a
-- completion: pending it has no times, running it has started and not completed, in a terminal status
-- it has the time of its completion, and failed it has a message.
pub execution-IsSound :
    (params : CreateParams) (id : Text) (now now' : ℕ) (e : WorkflowExecution)
    → params.started_at ≡ none
    → params.completed_at ≡ none
    → Reaches (create params id now now') e
    → IsSound e
unfolding IsSound create
execution-IsSound params id now now' e unstarted uncompleted r =
    Reaches-IsSound (create params id now now') e (ground arith) r

-- What no operation changes: who triggered which definition, for which tenant, and with what input.
pub Step-identity :
    (e e' : WorkflowExecution)
    → Step e e'
    → (e'.id ≡ e.id)
      × (e'.tenant_id ≡ e.tenant_id)
      × (e'.definition_id ≡ e.definition_id)
      × (e'.triggered_by ≡ e.triggered_by)
      × (e'.input ≡ e.input)
unfolding start complete fail_with cancel
Step-identity _ _ (started e e' now touched h) = ground arith
Step-identity _ _ (finished e now touched) = ground arith
Step-identity _ _ (broken e message now touched) = ground arith
Step-identity _ _ (stopped e e' reason now touched h) = ground arith

-- From a terminal status, start and cancel throw; complete and fail do not, and lead on to completed
-- and to failed, so that a terminal status is not final.
pub terminal_steps :
    (e : WorkflowExecution) (reason : Option Text) (message : Text) (now touched : ℕ)
    → is_terminal e.status ≡ true
    → ((e' : WorkflowExecution) → start now touched e ≢ ok e')
      × ((e' : WorkflowExecution) → cancel reason now touched e ≢ ok e')
      × ((complete now touched e).status ≡ completed)
      × ((fail_with message now touched e).status ≡ failed)
unfolding start complete fail_with cancel
terminal_steps e reason message now touched h = ground arith
