-- ===== src/Worker/Tests.antt =====
-- Tickets of an execution with one FreeBuff stage, and a daemon of two cycles.
use personal_ai_model.Prelude.{ℕ, zero, suc, ◌≡◌, refl, none, some, [], ◌∷◌, true, false, arith}
use personal_ai_model.Prelude.Text.{Text, codes, strip, without_nul}
use personal_ai_model.Prelude.Result.{ok, err}
use personal_ai_model.Execution.{Stage, Execution, RecordStatus, freebuff, pending}
use personal_ai_model.Execution.Show.{serialize_stage}
use personal_ai_model.Worker.{Ticket, ready, write_ticket, bounded, other_task}
use personal_ai_model.Worker.Tickets.{check_ticket}
use personal_ai_model.Worker.Checked.{Offered, check_ticket-write_ticket, check_ticket-long_task}
use personal_ai_model.Worker.Daemon.{Turn, Summary, Finished, supervisor_run, supervisor_run-ends}

abbrev stage : Stage
stage = record {
  id = codes "s1";
  executor = freebuff;
  provider = none;
  model = none;
  purpose = codes "implement";
  selection_reason = codes "scoped";
  state = pending;
  attempt_count = 0;
  lease_id = none;
  lease_expires_at = none;
  dispatch_id = none;
  dispatched_at = none;
  evidence = [];
  artifact_path = none;
  adapter_target = none;
  adapter_token = none;
  allowed_paths = [];
  artifacts_changed = [];
}

abbrev execution : Text → Execution
execution task = record {
  id = codes "exec-1";
  orchestration_id = codes "orch-1";
  task = task;
  task_type = codes "coding";
  status = RecordStatus.planned;
  stages = stage ∷ [];
  current_stage_index = 0;
  created_at = codes "t0";
  updated_at = codes "t0";
  events = [];
}

abbrev repeat : ℕ → Text
repeat zero = []
repeat (suc n) = b'x' ∷ repeat n

Offered-stage : (task : Text) → Offered (execution task) stage
Offered-stage task = record {
  is_current = refl;
  is_waiting = refl;
  is_work = λ e. cc e;
  is_named = (refl, refl);
  is_permitted = refl;
}

task_kept : bounded (codes "add a test") ≡ codes "add a test"
unfolding bounded strip without_nul
task_kept = refl

purpose_kept : bounded (codes "implement") ≡ codes "implement"
unfolding bounded strip without_nul
purpose_kept = refl

check_ticket-write_ticket_example :
    check_ticket false
      (write_ticket (codes "t1") (execution (codes "add a test")) stage []).0
      (execution (codes "add a test"))
    ≡ ok (serialize_stage true stage)
check_ticket-write_ticket_example =
    check_ticket-write_ticket (codes "t1") (execution (codes "add a test")) stage []
      (Offered-stage (codes "add a test")) task_kept purpose_kept

check_ticket-long_task_example :
    check_ticket false
      (write_ticket (codes "t1") (execution (repeat 501)) stage []).0
      (execution (repeat 501))
    ≡ err other_task
check_ticket-long_task_example =
    check_ticket-long_task (codes "t1") (execution (repeat 501)) stage []
      (Offered-stage (repeat 501)) (omega arith)

abbrev ticket : Ticket
ticket = record {
  execution_id = codes "exec-1";
  stage_id = codes "s1";
  executor = freebuff;
  provider = none;
  model = none;
  task = codes "add a test";
  purpose = codes "implement";
  created_at = codes "t1";
  updated_at = codes "t1";
  state = ready;
}

abbrev calm : Turn
calm = record {
  draining = false;
  stop = false;
  raises = false;
  draining_before = false;
  stop_before = false;
  executed = 1;
  draining_after = false;
  stop_after = false;
}

supervisor_run-ends_example :
    (s : Summary) × (supervisor_run 60 2 (calm ∷ calm ∷ calm ∷ []) ≡ ok (some s))
    × Finished 2 (some s)
supervisor_run-ends_example =
    supervisor_run-ends 60 2 (calm ∷ calm ∷ calm ∷ []) (omega arith) (omega arith) (omega arith)
      (omega arith) (omega arith)
