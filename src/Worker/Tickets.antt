-- ===== src/Worker/Tickets.antt =====
-- `execute_ticket` and `_run_adapter` of executor_worker.py, and the tickets that it lists.
use personal_ai_model.Prelude.{
  ℕ, zero, suc, ◌*◌, Bool, true, false, not, ◌&&◌, ◌||◌, Option, none, some, List, [], ◌∷◌,
  if◌then◌else◌, take, ltb, length,
}
use personal_ai_model.Prelude.Text.{Text, codes, ◌==◌, ◌==?◌, truthy, is_empty}
use personal_ai_model.Prelude.Result.{Result, ok, err, ◌>>=◌, ◌>>◌, raise_if}
use personal_ai_model.Prelude.Keyed.{find, replace}
use personal_ai_model.Execution.{
  Executor, ollama, freebuff, omniroute, primary_review, Stage, Execution, ExecutionError,
  is_pending,
}
use personal_ai_model.Execution.Claim.{Env, claim_execution_stage}
use personal_ai_model.Execution.Dispatch.{Dispatch, mark_execution_dispatched}
use personal_ai_model.Execution.Outcome.{Report, record_execution_result}
use personal_ai_model.Execution.Show.{next_execution_stage}
use personal_ai_model.Worker.{
  Ticket, TicketState, ticket_path, ticket_name, WorkerError, names_prohibited, is_ready,
  same_executor, text_differs, invalid_limit, dispatched, processed, stopped, not_ready,
  prohibited_model, missing_id, no_stage, other_stage, not_pending, other_task, other_purpose,
  other_executor, other_provider, other_model, no_route, execution_error,
}

abbrev pub stage_or : Option Stage → Result WorkerError Stage
stage_or none = err no_stage
stage_or (some s) = ok s

-- What `execute_ticket` tests before it claims: the stop, the ticket, and the ticket against the record.
unfoldable pub check_ticket : Bool → Ticket → Execution → Result WorkerError Stage
check_ticket stop t r = do
  raise_if stop stopped
  raise_if (not (is_ready t.state)) not_ready
  raise_if (names_prohibited t.model) prohibited_model
  raise_if (is_empty t.execution_id || is_empty t.stage_id) missing_id
  s ← stage_or (next_execution_stage r).stage
  raise_if (not (s.id == t.stage_id)) other_stage
  raise_if (not (is_pending s.state)) not_pending
  raise_if (text_differs r.task t.task) other_task
  raise_if (text_differs s.purpose t.purpose) other_purpose
  raise_if (not (same_executor s.executor t.executor)) other_executor
  raise_if (not (s.provider ==? t.provider)) other_provider
  raise_if (not (s.model ==? t.model)) other_model
  ok s

-- The outcome of an adapter: asynchronous work that has begun, or a failure.
pub record AdapterRun : Type 0 where
  pub begun : Bool
  pub evidence : Text
  pub artifact_path : Option Text

abbrev pub began : Text → Option Text → AdapterRun
began evidence path = record { begun = true; evidence = evidence; artifact_path = path }

abbrev pub gave_up : Text → AdapterRun
gave_up evidence = record { begun = false; evidence = evidence; artifact_path = none }

-- What stands behind the adapters: `response` is the stripped response of the model, `handoff` the path of
-- FreeBuff's handoff, `none` where the call raises; `wording` is the text of the evidence, of a failure or not.
pub record Backends : Type 0 where
  pub response : Ticket → Option Text
  pub handoff : Ticket → Option (Option Text)
  pub wording : Ticket → Bool → Text → Text

abbrev pub after_model : Backends → Ticket → Option Text → AdapterRun
after_model b t none = gave_up (b.wording t false [])
after_model b t (some response) =
    if ltb (length response) 10
    then gave_up (b.wording t false response)
    else began (b.wording t true (take 400 response)) none

abbrev pub after_handoff : Backends → Ticket → Option (Option Text) → AdapterRun
after_handoff b t none = gave_up (b.wording t false [])
after_handoff b t (some path) = began (b.wording t true []) path

-- A model executor without a provider or a model raises, behind the claim.
abbrev pub run_model : Backends → Ticket → Result WorkerError AdapterRun
run_model b t =
    if truthy t.provider && truthy t.model
    then ok (after_model b t (b.response t))
    else err no_route

-- The branches of the executors that a stage can have. Those of "deterministic" and "aider" are left
-- out: no stage is planned with them, and a ticket's executor is its stage's.
abbrev pub run_adapter_of : Executor → Backends → Ticket → Result WorkerError AdapterRun
run_adapter_of ollama b t = run_model b t
run_adapter_of omniroute b t = run_model b t
run_adapter_of freebuff b t = ok (after_handoff b t (b.handoff t))
run_adapter_of primary_review b t = ok (gave_up (b.wording t false []))

unfoldable pub run_adapter : Backends → Ticket → Result WorkerError AdapterRun
run_adapter b t = run_adapter_of t.executor b t

abbrev pub lifted {ℓ} : {A : Type ℓ} → Result ExecutionError A → Result WorkerError A
lifted (ok a) = ok a
lifted (err x) = err (execution_error x)

abbrev pub dispatch_args : Ticket → Text → AdapterRun → Dispatch
dispatch_args t lease a = record {
  stage_id = t.stage_id;
  lease_id = lease;
  evidence = a.evidence;
  artifact_path = a.artifact_path;
  adapter_target = none;
  adapter_token = none;
}

abbrev pub report_args : Ticket → Text → AdapterRun → Report
report_args t lease a = record {
  stage_id = t.stage_id;
  lease_id = lease;
  outcome = codes "failed";
  evidence = a.evidence;
  artifact_path = a.artifact_path;
  artifacts_changed = [];
  dispatch_id = none;
  adapter_target = none;
  adapter_token = none;
}

-- A ticket file that is there gets its new state.
abbrev pub marked : Text → TicketState → Ticket → Ticket
marked now state t = record t { state = state; updated_at = now }

abbrev pub mark_found : Text → TicketState → Option Ticket → List Ticket → List Ticket
mark_found now state none tickets = tickets
mark_found now state (some t) tickets =
    replace ticket_path (ticket_path t) (marked now state t) tickets

unfoldable pub mark_ticket_processed : Text → Text → Text → TicketState → List Ticket → List Ticket
mark_ticket_processed now execution_id stage_id state tickets =
    mark_found now state (find ticket_path (ticket_name execution_id stage_id) tickets) tickets

-- The answer, the record and the ticket files that a call leaves.
abbrev pub Executed : Type 0
Executed = Result WorkerError (Unit {0}) × Execution × List Ticket

-- The texts of the clock and of the random source.
pub record Fresh : Type 0 where
  pub lease : Text
  pub dispatch : Text
  pub stamp : Text

module _ (root : List Text) (resolve : Text → List Text) (backends : Backends) where
  -- The record that the adapter's outcome is written into.
  unfoldable pub write_outcome :
      Fresh → Ticket → AdapterRun → Execution → Result ExecutionError Execution
  write_outcome f t a r =
      if a.begun
      then (do
        w ← mark_execution_dispatched root resolve f.stamp f.dispatch (dispatch_args t f.lease a) r
        ok w.1)
      else (do w ← record_execution_result root resolve f.stamp (report_args t f.lease a) r; ok w.1)

  abbrev pub after_outcome :
      Fresh
      → Ticket
      → AdapterRun
      → Execution
      → List Ticket
      → Result ExecutionError Execution
      → Executed
  after_outcome f t a r tickets (err x) = (err (execution_error x), r, tickets)
  after_outcome f t a r tickets (ok r') = (
    ok tt,
    r',
    mark_ticket_processed f.stamp t.execution_id t.stage_id
        (if a.begun then dispatched else processed) tickets,
  )

  abbrev pub after_adapter :
      Fresh → Ticket → Execution → List Ticket → Result WorkerError AdapterRun → Executed
  after_adapter f t r tickets (err x) = (err x, r, tickets)
  after_adapter f t r tickets (ok a) = after_outcome f t a r tickets (write_outcome f t a r)

  abbrev pub after_claim :
      Fresh
      → Ticket
      → Execution
      → List Ticket
      → Result ExecutionError (Stage × Execution)
      → Executed
  after_claim f t r tickets (err x) = (err (execution_error x), r, tickets)
  after_claim f t r tickets (ok w) = after_adapter f t w.1 tickets (run_adapter backends t)

  abbrev pub after_check :
      Env → Fresh → Ticket → Bool → Execution → List Ticket → Result WorkerError Stage → Executed
  after_check env f t dry_run r tickets (err x) = (err x, r, tickets)
  after_check env f t dry_run r tickets (ok s) =
      if dry_run
      then (ok tt, r, tickets)
      else after_claim f t r tickets (claim_execution_stage env t.stage_id 900 f.lease r)

  unfoldable pub execute_ticket : Env → Fresh → Ticket → Bool → Execution → List Ticket → Executed
  execute_ticket env f t dry_run r tickets =
      after_check env f t dry_run r tickets (check_ticket env.stopped t r)

-- The ready tickets, at most `limit` of at most ten times as many files.
unfoldable pub ready_tickets : ℕ → ℕ → List Ticket → List Ticket
ready_tickets zero inspect tickets = []
ready_tickets (suc limit) zero tickets = []
ready_tickets (suc limit) (suc inspect) [] = []
ready_tickets (suc limit) (suc inspect) (t ∷ tickets) =
    let kept = ready_tickets limit inspect tickets in
    let skipped = ready_tickets (suc limit) inspect tickets in
    if is_ready t.state then t ∷ kept else skipped

unfoldable pub list_ready_tickets : ℕ → List Ticket → Result WorkerError (List Ticket)
list_ready_tickets limit tickets = do
  raise_if (ltb limit 1 || ltb 100 limit) invalid_limit
  ok (ready_tickets limit (limit * 10) tickets)
