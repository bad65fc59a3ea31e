-- ===== src/Runtime/History.antt =====
-- What any sequence of the runtime's operations does to a task that the queue shows.
pub mod Settled
pub mod Keys
use personal_ai_model.Prelude.{
  ◌≡◌, refl, subst, ◌⊎◌, inl, inr, ℕ, Bool, true, false, not, ◌&&◌, ◌||◌, Option, none, some, List,
  [], ◌∷◌, ◌++◌, map, arith, if◌then◌else◌, Option-cases, Bool-cases,
}
use personal_ai_model.Prelude.Text.{Text, codes, ◌==◌, text_discrete}
use personal_ai_model.Prelude.Result.{Result, ok, err, ◌>>=◌, ◌>>◌, raise_if}
use personal_ai_model.Prelude.Keyed.{
  find, replace, key-find, find-replace, find-append, find-map, or_else, written, applied,
}
use personal_ai_model.Core.{markdown_escape}
use personal_ai_model.Runtime.Tasks.{
  Task, TaskState, task_id, task_key, new_task, enqueue_task, clean_key, update_task_state, Updated,
  in_state, recover_task, recover_interrupted_tasks, allowed_transitions, has_state, same_state,
  state_named, running, queued, awaiting_approval, TaskState-discrete,
}
use personal_ai_model.Runtime.Stop.{Runtime, cancel_task, kill_switch, is_active}

-- A call that raises leaves the queue as it was.
abbrev pub after : List Task → Updated → List Task
after tasks (ok (t, written)) = written
after tasks (err e) = tasks

-- A call with what the clock and the random source give it.
pub data Call : Type 0 where
  enqueue : Text → Text → Text → Option Text → Text → Text → Text → Call
  update : Text → Text → Text → Call
  recover : Text → Call
  kill : Text → Call

unfoldable pub step : Call → Runtime → Runtime
step (enqueue kind summary priority key fresh_key fresh_id now) r = record r {
  tasks = (enqueue_task kind summary priority key fresh_key fresh_id now r.tasks).1;
}
step (update id state now) r = record r {
  tasks = after r.tasks (update_task_state id state now r.tasks);
}
step (recover now) r = record r { tasks = (recover_interrupted_tasks now r.tasks).1 }
step (kill now) r = (kill_switch now r).1

unfoldable pub run : List Call → Runtime → Runtime
run [] r = r
run (c ∷ cs) r = run cs (step c r)

-- The table allows the change, or there is none.
abbrev pub MayBecome : TaskState → TaskState → Type 0
MayBecome s t = (t ≡ s) ⊎ (has_state t (allowed_transitions s) ≡ true)

abbrev pub Follows : Text → TaskState → List Task → Type 0
Follows j s tasks = (t : Task) × (find task_id j tasks ≡ some t) × MayBecome s t.state

recover-MayBecome : (now : Text) (t : Task) → MayBecome t.state (recover_task now t).state
unfolding recover_task has_state allowed_transitions TaskState-discrete
recover-MayBecome now t = ground arith

cancel-MayBecome : (now : Text) (t : Task) → MayBecome t.state (cancel_task now t).state
unfolding cancel_task has_state allowed_transitions TaskState-discrete
cancel-MayBecome now t = ground arith

pub task_id-recover : (now : Text) (t : Task) → task_id (recover_task now t) ≡ task_id t
unfolding recover_task
task_id-recover now t = ground arith

pub task_id-cancel : (now : Text) (t : Task) → task_id (cancel_task now t) ≡ task_id t
unfolding cancel_task
task_id-cancel now t = ground arith

pub update_cases {ℓ} :
    (P : List Task → Type ℓ) (tasks : List Task) (id new_state now : Text)
    → P tasks
    → ((s : TaskState) (t : Task)
        → find task_id id tasks ≡ some t
        → MayBecome t.state s
        → P (replace task_id t.id (in_state s now t) tasks))
    → P (after tasks (update_task_state id new_state now tasks))
unfolding update_task_state
update_cases P tasks id new_state now kept moved =
    elim (Option-cases (state_named (markdown_escape new_state))) [
      | inl e ↦ rw (e, update_task_state) kept
      | inr (s, e) ↦ elim (Option-cases (find task_id id tasks)) [
        | inl f ↦ rw (e, f, update_task_state) kept
        | inr (t, f) ↦ rw (e, f, update_task_state) (ground (arith, moved s t f))
      ]
    ]

replace-Follows :
    (j k : Text) (a t v : Task) (tasks : List Task)
    → find task_id j tasks ≡ some a
    → find task_id k tasks ≡ some t
    → v.id ≡ t.id
    → MayBecome t.state v.state
    → Follows j a.state (replace task_id t.id v tasks)
replace-Follows j k a t v tasks e f same moves = elim (text_discrete t.id j) [
  | yes h ↦
      let q : t ≡ a = cc (key-find task_id k tasks t f) in
      (
        v,
        ground (arith, find-replace task_id t.id j v tasks),
        subst (λ (x : Task). MayBecome x.state v.state) q moves,
      )
  | no h ↦ (a, ground (arith, find-replace task_id t.id j v tasks), inl refl)
]

-- Every operation, the recovery and the emergency stop included, moves a task only as
-- `ALLOWED_TRANSITIONS` says, and loses none.
pub step-Follows :
    (c : Call) (r : Runtime) (j : Text) (a : Task)
    → find task_id j r.tasks ≡ some a
    → Follows j a.state (step c r).tasks
unfolding step recover_interrupted_tasks kill_switch
step-Follows (enqueue kind summary priority key fresh_key fresh_id now) r j a e =
    (a, enqueued (Option-cases (find task_key (clean_key key fresh_key) r.tasks)), inl refl)
  where
    enqueued :
        (find task_key (clean_key key fresh_key) r.tasks ≡ none)
          ⊎ ((t : Task) × (find task_key (clean_key key fresh_key) r.tasks ≡ some t))
        → find task_id j (enqueue_task kind summary priority key fresh_key fresh_id now r.tasks).1
          ≡ some a
    enqueued (inl f) = unfold enqueue_task in rw (f, enqueue_task, find-append, e)
    enqueued (inr (t, f)) = unfold enqueue_task in rw (f, enqueue_task) e
step-Follows (update id state now) r j a e =
    update_cases (Follows j a.state) r.tasks id state now (a, e, inl refl)
      λ s t f moves. replace-Follows j id a t (in_state s now t) r.tasks e f refl moves
step-Follows (recover now) r j a e = (
  recover_task now a,
  rw (find-map task_id (recover_task now) (task_id-recover now) j r.tasks, e),
  recover-MayBecome now a,
)
step-Follows (kill now) r j a e = (
  cancel_task now a,
  rw (find-map task_id (cancel_task now) (task_id-cancel now) j r.tasks, e),
  cancel-MayBecome now a,
)
