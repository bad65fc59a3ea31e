-- ===== src/Worker/Cycle.antt =====
-- `supervisor_run_once` of supervisor.py: one cycle over the executions.
use personal_ai_model.Prelude.{
  ℕ, Bool, true, false, Option, none, some, List, [], ◌∷◌, ◌++◌, if◌then◌else◌, take, drop,
}
use personal_ai_model.Prelude.Text.{Text}
use personal_ai_model.Prelude.Result.{Result, ok, ◌>>◌, raise_if}
use personal_ai_model.Execution.{Stage, Execution, RecordStatus, is_pending}
use personal_ai_model.Execution.Recovery.{recover_execution}
use personal_ai_model.Execution.Show.{next_execution_stage}
use personal_ai_model.Worker.{Ticket, write_ticket, WorkerError, stopped}

abbrev pub is_ended : RecordStatus → Bool
is_ended RecordStatus.completed = true
is_ended RecordStatus.failed = true
is_ended _ = false

abbrev pub pending_stage : Option Stage → Option Stage
pending_stage none = none
pending_stage (some s) = if is_pending s.state then some s else none

abbrev pub ticket_for : Text → Execution → Option Stage → List Ticket → List Ticket
ticket_for stamp r none tickets = tickets
ticket_for stamp r (some s) tickets = (write_ticket stamp r s tickets).1

abbrev pub supervised : ℕ → Text → Execution → Execution
supervised now stamp r = if is_ended r.status then r else recover_execution now stamp r

abbrev pub offered : ℕ → Text → Execution → Option Stage
offered now stamp r =
    if is_ended r.status
    then none
    else pending_stage (next_execution_stage (recover_execution now stamp r)).stage

-- The loop over the executions; fewer than 100 of them are inspected before any one, so that the
-- bound on the tickets never stops it.
unfoldable pub supervise : ℕ → Text → List Execution → List Ticket → List Execution × List Ticket
supervise now stamp [] tickets = ([], tickets)
supervise now stamp (r ∷ rs) tickets =
    let r' = supervised now stamp r in
    let rest = supervise now stamp rs (ticket_for stamp r' (offered now stamp r) tickets) in
    (r' ∷ rest.0, rest.1)

abbrev pub max_items_per_run : ℕ
max_items_per_run = 100

unfoldable pub supervisor_run_once :
    Bool
    → ℕ
    → Text
    → List Execution
    → List Ticket
    → Result WorkerError (List Execution × List Ticket)
supervisor_run_once stop now stamp executions tickets = do
  raise_if stop stopped
  let seen = supervise now stamp (take max_items_per_run executions) tickets
  ok (seen.0 ++ drop max_items_per_run executions, seen.1)
