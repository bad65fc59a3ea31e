-- ===== src/Runtime/Stop.antt =====
-- The emergency stop of runtime.py.
use personal_ai_model.Prelude.{
  ℕ, suc, Bool, true, false, ◌||◌, Option, none, some, List, [], ◌∷◌, map, if◌then◌else◌,
}
use personal_ai_model.Prelude.Text.{Text, codes}
use personal_ai_model.Prelude.Result.{Result, ok, ◌>>=◌}
use personal_ai_model.Policy.{Approval, ApprovalError, Scope, consume_action_approval}
use personal_ai_model.Runtime.Tasks.{
  Task, TaskState, queued, running, awaiting_approval, cancelled, same_state, in_state,
}

-- emergency-stop.json
pub record Stop : Type 0 where
  pub active : Bool
  pub triggered_at : Option Text
  pub resumed_at : Option Text
  pub approval_id : Option Text

-- What the runtime keeps on disk, but for the locks.
pub record Runtime : Type 0 where
  pub tasks : List Task
  pub stop : Stop

unfoldable pub is_kill_switch_active : Runtime → Bool
is_kill_switch_active r = r.stop.active

unfoldable pub is_active : TaskState → Bool
is_active s = same_state s queued || same_state s running || same_state s awaiting_approval

unfoldable pub cancel_task : Text → Task → Task
unfolding is_active
cancel_task now t = if is_active t.state then in_state cancelled now t else t

unfoldable pub stopped_count : List Task → ℕ
unfolding is_active
stopped_count [] = 0
stopped_count (t ∷ ts) = let n = stopped_count ts in if is_active t.state then suc n else n

-- The flag is written first, then the queue; the number is that of the tasks it cancelled.
unfoldable pub kill_switch : Text → Runtime → ℕ × Runtime
unfolding cancel_task stopped_count
kill_switch now r = (
  stopped_count r.tasks,
  record r {
    stop = record r.stop { active = true; triggered_at = some now };
    tasks = map (cancel_task now) r.tasks;
  },
)

abbrev pub resume_scope : Scope
resume_scope = record {
  action = codes "runtime_resume";
  target = codes "guardian-runtime";
  user_id = none;
  account_id = none;
  connector_scope = none;
  idempotency_key = none;
  reservation_token = none;
  require_token = false;
}

-- Consumes an approval of the queue, then lifts the flag.
unfoldable pub resume_after_kill_switch :
    (Text → Text)
    → Text
    → Text
    → List Approval
    → Runtime
    → Result ApprovalError (List Approval × Runtime)
resume_after_kill_switch sanitize id now approvals r = do
  written ← consume_action_approval sanitize id resume_scope none now approvals
  ok (
    written.1,
    record r {
      stop = record r.stop { active = false; resumed_at = some now; approval_id = some id };
    },
  )
