-- ===== src/Runtime/History/Keys.antt =====
-- Idempotency keys of the task queue.
use personal_ai_model.Prelude.{◌≡◌, inl, inr, Option, some, List, arith, Option-cases}
use personal_ai_model.Prelude.Text.{Text}
use personal_ai_model.Prelude.Keyed.{find, find-append}
use personal_ai_model.Runtime.Tasks.{Task, task_key, new_task, enqueue_task, clean_key}

module _ (kind summary priority : Text) (key : Option Text) (fresh_key fresh_id now : Text) where
  enqueue_task-found :
      (tasks : List Task) (t : Task)
      → find task_key (clean_key key fresh_key) tasks ≡ some t
      → enqueue_task kind summary priority key fresh_key fresh_id now tasks ≡ (t, tasks)
  unfolding enqueue_task
  enqueue_task-found tasks t e = rw (e, enqueue_task)

  find-enqueue_task :
      (tasks : List Task)
      → let (t, left) = enqueue_task kind summary priority key fresh_key fresh_id now tasks in
        find task_key (clean_key key fresh_key) left ≡ some t
  unfolding enqueue_task
  find-enqueue_task tasks = elim (Option-cases (find task_key (clean_key key fresh_key) tasks)) [
    | inl f ↦ rw (f, enqueue_task, find-append, f) (unfold find new_task in ground arith)
    | inr (t, f) ↦ rw (f, enqueue_task) f
  ]

-- A second request with the same key, whatever else it says, gives the first one's task back and
-- leaves the queue alone.
pub enqueue_task_idem :
    (kind kind' summary summary' priority priority' : Text) (key key' : Option Text)
    (fresh_key fresh_key' fresh_id fresh_id' now now' : Text) (tasks : List Task)
    → clean_key key fresh_key ≡ clean_key key' fresh_key'
    → let first = enqueue_task kind summary priority key fresh_key fresh_id now tasks in
      enqueue_task kind' summary' priority' key' fresh_key' fresh_id' now' first.1 ≡ first
enqueue_task_idem kind kind' summary summary' priority priority' key key' fresh_key fresh_key'
      fresh_id fresh_id' now now' tasks e =
    enqueue_task-found kind' summary' priority' key' fresh_key' fresh_id' now' _ _
      (rw (← e) (find-enqueue_task kind summary priority key fresh_key fresh_id now tasks))
