-- ===== src/Worker.antt =====
-- src/guardian_agent/executor_worker.py, and the tickets of supervisor.py, by which the supervisor hands the
-- stages of an execution to the worker. A ticket file is a value, under the key of its path; the model calls, the
-- handoffs and the wording of the evidence are arguments. Every ticket that is written has version 1.
pub mod Tickets
pub mod Cycle
pub mod Checked
pub mod Daemon
mod Tests
use personal_ai_model.Prelude.{
  ℕ, Bool, true, false, not, ◌&&◌, ◌||◌, Option, none, some, List, [], ◌∷◌, ◌++◌, if◌then◌else◌,
  take, ltb, length,
}
use personal_ai_model.Prelude.Text.{
  Text, codes, ◌==◌, ◌==?◌, truthy, text_or, is_empty, strip, is_space, without_nul,
}
use personal_ai_model.Prelude.Keyed.{find, assign}
use personal_ai_model.ModelPolicy.{is_model_allowed}
use personal_ai_model.Execution.{
  Executor, ollama, freebuff, omniroute, primary_review, Stage, Execution, ExecutionError,
}

pub data TicketState : Type 0 where
  ready blocked dispatched processed awaiting_primary_review : TicketState

pub record Ticket : Type 0 where
  pub execution_id : Text
  pub stage_id : Text
  pub executor : Executor
  pub provider : Option Text
  pub model : Option Text
  pub task : Text
  pub purpose : Text
  pub created_at : Text
  pub updated_at : Text
  pub state : TicketState

-- f"ticket-{execution_id}-{stage_id}.json"
abbrev pub ticket_name : Text → Text → Text
ticket_name execution_id stage_id =
    codes "ticket-" ++ (execution_id ++ (codes "-" ++ (stage_id ++ codes ".json")))

abbrev pub ticket_path : Ticket → Text
ticket_path t = ticket_name t.execution_id t.stage_id

abbrev pub max_text : ℕ
max_text = 500

-- str(value).replace("\x00", "").strip()[:_MAX_TEXT]
unfoldable pub bounded : Text → Text
unfolding strip without_nul
bounded value = take max_text (strip is_space (without_nul value))

-- model and not is_model_allowed(model)
abbrev pub names_prohibited : Option Text → Bool
names_prohibited model = truthy model && not (is_model_allowed (text_or model []))

abbrev pub state_of_executor : Executor → TicketState
state_of_executor primary_review = awaiting_primary_review
state_of_executor _ = ready

unfoldable pub ticket_state : Stage → TicketState
ticket_state s = if names_prohibited s.model then blocked else state_of_executor s.executor

abbrev pub created_or : Text → Option Ticket → Text
created_or now none = now
created_or now (some t) = t.created_at

abbrev pub new_ticket : Text → Option Ticket → Execution → Stage → Ticket
new_ticket now previous r s = record {
  execution_id = r.id;
  stage_id = s.id;
  executor = s.executor;
  provider = s.provider;
  model = s.model;
  task = bounded r.task;
  purpose = bounded s.purpose;
  created_at = created_or now previous;
  updated_at = now;
  state = ticket_state s;
}

-- The ticket, and the files afterwards.
unfoldable pub write_ticket : Text → Execution → Stage → List Ticket → Ticket × List Ticket
unfolding bounded ticket_state
write_ticket now r s tickets =
    let ticket = new_ticket now (find ticket_path (ticket_name r.id s.id) tickets) r s in
    (ticket, assign ticket_path ticket tickets)

-- The messages of `GuardianError`; `execution_error` is one of the governor's.
pub data WorkerError : Type 0 where
  invalid_limit stopped not_ready prohibited_model missing_id no_stage other_stage not_pending :
      WorkerError
  other_task other_purpose other_executor other_provider other_model no_route : WorkerError
  execution_error : ExecutionError → WorkerError

abbrev pub is_ready : TicketState → Bool
is_ready ready = true
is_ready _ = false

abbrev pub same_executor : Executor → Executor → Bool
same_executor ollama ollama = true
same_executor freebuff freebuff = true
same_executor omniroute omniroute = true
same_executor primary_review primary_review = true
same_executor _ _ = false

-- given and other != given
abbrev pub text_differs : Text → Text → Bool
text_differs given other = not (is_empty given) && not (other == given)
