-- ===== src/Runtime/Tests.antt =====
-- Runs of the task queue, the emergency stop, the locks and the drain.
use personal_ai_model.Prelude.{
  ◌⊎◌, ◌≡◌, ◌≢◌, refl, inl, none, some, List, [], ◌∷◌, true, false, All, ◌≤◌, arith,
}
use personal_ai_model.Prelude.Text.{Text, codes, text_discrete, optional_discrete}
use personal_ai_model.Prelude.Result.{ok}
use personal_ai_model.Prelude.Keyed.{find, replace}
use personal_ai_model.Core.{markdown_escape}
use personal_ai_model.Policy.{
  Approval, approved, consume_action_approval, as_consumed, validate_approval_scope,
  validate_identity, is_sensitive, requires_external_scope,
}
use personal_ai_model.Runtime.Tasks.{
  update_task_state, TaskState-discrete, state_named, Task, TaskState, running, cancelled, task_id,
  new_task, enqueue_task, clean_key,
}
use personal_ai_model.Runtime.Stop.{
  Runtime, Stop, is_kill_switch_active, kill_switch, resume_after_kill_switch,
}
use personal_ai_model.Runtime.Locks.{acquire_lock, held}
use personal_ai_model.Runtime.History.{
  Call, enqueue, update, recover, step, run, Follows, step-Follows,
}
use personal_ai_model.Runtime.History.Settled.{run-settled, kill_switch_stops, IsIdle, IsStopped}
use personal_ai_model.Runtime.Drain

abbrev quiet : Stop
quiet = record { active = false; triggered_at = none; resumed_at = none; approval_id = none }

abbrev task : TaskState → Task
task s =
    record (new_task (codes "shell") (codes "build") (codes "high") (codes "k") (codes "t1")
      (codes "now")) { state = s }

abbrev one : TaskState → Runtime
one s = record { tasks = task s ∷ []; stop = quiet }

abbrev moves : List Call
moves =
    enqueue (codes "shell") (codes "build") (codes "high") (some (codes "k")) [] (codes "t1")
      (codes "now")
    ∷ update (codes "t1") (codes "running") (codes "now")
    ∷ []

moved :
    find task_id (codes "t1") (run moves (record { tasks = []; stop = quiet })).tasks
    ≡ some (task running)
unfolding run step find text_discrete enqueue_task new_task markdown_escape update_task_state
    replace state_named TaskState-discrete
moved = refl

found : (s : TaskState) → find task_id (codes "t1") (one s).tasks ≡ some (task s)
unfolding find text_discrete new_task
found s = refl

step-Follows_example :
    Follows (codes "t1") running (step (recover (codes "later")) (one running)).tasks
step-Follows_example =
    step-Follows (recover (codes "later")) (one running) (codes "t1") (task running) (found running)

run-settled_example :
    (t : Task) × (find task_id (codes "t1") (run moves (one cancelled)).tasks ≡ some t)
    × (t.state ≡ cancelled)
run-settled_example =
    run-settled moves (one cancelled) (codes "t1") (task cancelled) (found cancelled) (inl refl)

kill_switch_stops_example :
    (is_kill_switch_active (kill_switch (codes "now") (one running)).1 ≡ true)
    × All IsIdle (kill_switch (codes "now") (one running)).1.tasks
    × ((find task_id (codes "t1") (one running).tasks ≡ none)
        ⊎ ((a : Task) × (find task_id (codes "t1") (one running).tasks ≡ some a)
            × ((t : Task) × (find task_id
                    (codes "t1")
                    (run moves (kill_switch (codes "now") (one running)).1).tasks
                  ≡ some t)
                × IsStopped a t)))
kill_switch_stops_example = kill_switch_stops (codes "now") (one running) moves (codes "t1")

abbrev same : Text → Text
same t = t

abbrev resume_approval : Approval
resume_approval = record {
  id = codes "a1";
  timestamp = codes "2026-01-01";
  expires_at = none;
  user_id = none;
  account_id = none;
  connector_scope = none;
  action = codes "runtime_resume";
  target = codes "guardian-runtime";
  canonical_target = codes "guardian-runtime";
  reason = codes "go on";
  idempotency_key = none;
  before_evidence = none;
  after_evidence = none;
  reservation_token = none;
  status = approved;
  approved_at = none;
  reserved_at = none;
  consumed_at = none;
  updated_at = none;
  error_reason = none;
}

abbrev stopped : Runtime
stopped = record { tasks = []; stop = record quiet { active = true } }

abbrev resumed : Runtime
resumed = record {
  tasks = [];
  stop = record quiet {
    active = false;
    resumed_at = some (codes "now");
    approval_id = some (codes "a1");
  };
}

abbrev spent : List Approval
spent = as_consumed none (codes "now") resume_approval ∷ []

resumes :
    resume_after_kill_switch same (codes "a1") (codes "now") (resume_approval ∷ []) stopped
    ≡ ok (spent, resumed)
unfolding resume_after_kill_switch consume_action_approval find replace text_discrete
    optional_discrete markdown_escape validate_approval_scope validate_identity is_sensitive
    requires_external_scope
resumes = refl

same_key : clean_key (some (codes " k ")) [] ≡ clean_key (some (codes "k")) []
unfolding markdown_escape
same_key = refl

differ : markdown_escape (codes "disk") ≢ markdown_escape (codes "db")
unfolding markdown_escape
differ e = cc e

free : (acquire_lock (codes "db") (codes "now") []).0 ≡ true
unfolding acquire_lock held
free = refl

abbrev busy : Drain.Drain
busy = record { requested = true; inflight = 1; hooks = 7 ∷ []; ran = [] }

abbrev idle : Drain.Drain
idle = record { requested = false; inflight = 0; hooks = []; ran = [] }

abbrev sleeps : List (List Drain.Call)
sleeps = (Drain.complete_inflight ∷ []) ∷ []

waits_for_one :
    Drain.wait_for_drain
      ((Drain.register_inflight ∷ [])
        ∷ (Drain.complete_inflight ∷ Drain.complete_inflight ∷ [])
        ∷ [])
      busy
    ≡ (true, record { requested = true; inflight = 0; hooks = []; ran = 7 ∷ [] })
unfolding Drain.wait_for_drain
waits_for_one = refl

one_left : 1 ≤ 1
one_left = omega arith
