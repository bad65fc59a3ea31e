-- ===== src/Runtime/Tasks.antt =====
-- The task queue of runtime.py.
use personal_ai_model.Prelude.{
  ℕ, Bool, false, not, ◌&&◌, ◌||◌, Option, none, some, List, [], ◌∷◌, ◌++◌, map, if◌then◌else◌,
  holds,
}
use personal_ai_model.Prelude.Text.{Text, codes, ◌==◌, text_or}
use personal_ai_model.Prelude.Result.{Result, ok, err, ◌>>=◌, ◌>>◌, raise_if}
use personal_ai_model.Prelude.Keyed.{find, replace}
use personal_ai_model.Core.{markdown_escape}

-- VALID_STATES
pub data TaskState : Type 0 where
  draft awaiting_confirmation queued running awaiting_approval blocked failed cancelled completed :
      TaskState

unfoldable pub TaskState-discrete : Discrete TaskState
TaskState-discrete = hlevel

abbrev pub same_state : TaskState → TaskState → Bool
same_state s t = holds (TaskState-discrete s t)

-- ALLOWED_TRANSITIONS
unfoldable pub allowed_transitions : TaskState → List TaskState
allowed_transitions draft = awaiting_confirmation ∷ queued ∷ cancelled ∷ []
allowed_transitions awaiting_confirmation = queued ∷ cancelled ∷ []
allowed_transitions queued = running ∷ awaiting_approval ∷ cancelled ∷ blocked ∷ []
allowed_transitions running =
    awaiting_approval ∷ blocked ∷ failed ∷ cancelled ∷ completed ∷ queued ∷ []
allowed_transitions awaiting_approval = queued ∷ cancelled ∷ blocked ∷ []
allowed_transitions blocked = queued ∷ cancelled ∷ []
allowed_transitions failed = queued ∷ cancelled ∷ []
allowed_transitions cancelled = []
allowed_transitions completed = []

unfoldable pub has_state : TaskState → List TaskState → Bool
has_state s [] = false
has_state s (t ∷ ts) = same_state s t || has_state s ts

-- The state that a name in VALID_STATES stands for.
unfoldable pub state_named : Text → Option TaskState
state_named s =
    if s == codes "draft"
    then some draft
    else if s == codes "awaiting_confirmation"
    then some awaiting_confirmation
    else if s == codes "queued"
    then some queued
    else if s == codes "running"
    then some running
    else if s == codes "awaiting_approval"
    then some awaiting_approval
    else if s == codes "blocked"
    then some blocked
    else if s == codes "failed"
    then some failed
    else if s == codes "cancelled"
    then some cancelled
    else if s == codes "completed"
    then some completed
    else none

pub record Task : Type 0 where
  pub id : Text
  pub kind : Text  -- "type"
  pub summary : Text
  pub priority : Text
  pub idempotency_key : Text
  pub state : TaskState
  pub retry_count : ℕ
  pub external_side_effect : Bool  -- false where the key is missing
  pub recovery_reason : Option Text
  pub created_at : Text
  pub updated_at : Text

pub data TaskError : Type 0 where
  invalid_state task_not_found transition_refused : TaskError

abbrev pub task_id : Task → Text
task_id t = t.id

abbrev pub task_key : Task → Text
task_key t = t.idempotency_key

-- The entry that `enqueue_task` writes.
unfoldable pub new_task : Text → Text → Text → Text → Text → Text → Task
new_task kind summary priority key id now = record {
  id = id;
  kind = kind;
  summary = summary;
  priority = priority;
  idempotency_key = key;
  state = queued;
  retry_count = 0;
  external_side_effect = false;
  recovery_reason = none;
  created_at = now;
  updated_at = now;
}

-- The key that is looked up: the caller's, or a fresh one.
abbrev pub clean_key : Option Text → Text → Text
clean_key key fresh_key = markdown_escape (text_or key fresh_key)

unfoldable pub enqueue_task :
    Text → Text → Text → Option Text → Text → Text → Text → List Task → Task × List Task
unfolding new_task
enqueue_task kind summary priority key fresh_key fresh_id now tasks =
    elim (find task_key (clean_key key fresh_key) tasks) [
      | some existing ↦ (existing, tasks)
      | none ↦
          let entry =
            new_task (markdown_escape kind) (markdown_escape summary) priority
              (clean_key key fresh_key) fresh_id now in
          (entry, tasks ++ entry ∷ [])
    ]

abbrev pub Updated : Type 0
Updated = Result TaskError (Task × List Task)

abbrev pub or_raise {ℓ} : {A : Type ℓ} → Option A → TaskError → Result TaskError A
or_raise none e = err e
or_raise (some a) e = ok a

-- task["state"] = state
abbrev pub in_state : TaskState → Text → Task → Task
in_state state now t = record t { state = state; updated_at = now }

unfoldable pub update_task_state : Text → Text → Text → List Task → Updated
unfolding has_state allowed_transitions
update_task_state id new_state now tasks = do
  state ← or_raise (state_named (markdown_escape new_state)) invalid_state
  task ← or_raise (find task_id id tasks) task_not_found
  raise_if
      (not (same_state state task.state) && not (has_state state (allowed_transitions task.state)))
      transition_refused
  ok (in_state state now task, replace task_id task.id (in_state state now task) tasks)

-- What `recover_interrupted_tasks` does to one task.
unfoldable pub recover_task : Text → Task → Task
recover_task now t =
    if not (same_state t.state running)
    then t
    else if t.external_side_effect
    then record t {
      state = awaiting_approval;
      recovery_reason =
          some (codes "Interrupted during potential external side effect; review required.");
      updated_at = now;
    }
    else record t {
      state = queued;
      recovery_reason = some (codes "Recovered after an interrupted local task.");
      updated_at = now;
    }

-- The tasks that are reported as recovered, and the queue.
unfoldable pub recovered_tasks : Text → List Task → List Task
unfolding recover_task
recovered_tasks now [] = []
recovered_tasks now (t ∷ ts) =
    let rest = recovered_tasks now ts in
    if same_state t.state running then recover_task now t ∷ rest else rest

unfoldable pub recover_interrupted_tasks : Text → List Task → List Task × List Task
unfolding recovered_tasks
recover_interrupted_tasks now tasks = (recovered_tasks now tasks, map (recover_task now) tasks)

unfoldable pub get_task_status : Text → List Task → Result TaskError Task
get_task_status id tasks = or_raise (find task_id id tasks) task_not_found
