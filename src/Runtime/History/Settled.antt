-- ===== src/Runtime/History/Settled.antt =====
-- Tasks that are over, the emergency stop and what follows it, and recovery.
use personal_ai_model.Prelude.{
  ◌≡◌, refl, sym, subst, ◌∙◌, ◌⊎◌, inl, inr, ℕ, ◌+◌, true, false, none, some, List, [], ◌∷◌, ◌++◌,
  map, arith, if◌then◌else◌, Option-cases, All,
}
use personal_ai_model.Prelude.Text.{Text}
use personal_ai_model.Prelude.Result.{ok, err, >>=-ok}
use personal_ai_model.Prelude.Keyed.{find, replace, find-map}
use personal_ai_model.Policy.{Approval, consume_action_approval, wrong_status}
use personal_ai_model.Policy.Lifecycle
use personal_ai_model.Runtime.Tasks.{
  Task, TaskState, TaskState-discrete, task_id, task_key, enqueue_task, clean_key, in_state,
  recover_task, recover_interrupted_tasks, allowed_transitions, has_state, same_state, running,
  queued, cancelled, completed,
}
use personal_ai_model.Runtime.Stop.{
  Runtime, cancel_task, kill_switch, is_active, stopped_count, is_kill_switch_active,
  resume_after_kill_switch, resume_scope,
}
use personal_ai_model.Runtime.History.{
  Call, enqueue, update, recover, kill, step, run, step-Follows, MayBecome, task_id-cancel,
  task_id-recover, update_cases,
}

abbrev pub IsSettled : TaskState → Type 0
IsSettled s = (s ≡ cancelled) ⊎ (s ≡ completed)

settled_stays : (s t : TaskState) → IsSettled s → MayBecome s t → t ≡ s
unfolding has_state allowed_transitions
settled_stays s t h m = ground arith

-- A cancelled or completed task keeps its state through any further history: no update, recovery or
-- enqueueing brings it back.
pub run-settled :
    (cs : List Call) (r : Runtime) (j : Text) (a : Task)
    → find task_id j r.tasks ≡ some a
    → IsSettled a.state
    → (t : Task) × (find task_id j (run cs r).tasks ≡ some t) × (t.state ≡ a.state)
unfolding run
run-settled [] r j a e h = (a, e, refl)
run-settled (c ∷ cs) r j a e h =
    let (b, f, m) = step-Follows c r j a e in
    let same = settled_stays a.state b.state h m in
    let (t, g, q) = run-settled cs (step c r) j b f (subst IsSettled (sym same) h) in
    (t, g, q ∙ same)

-- No task is lost.
run_found :
    (cs : List Call) (r : Runtime) (j : Text) (a : Task)
    → find task_id j r.tasks ≡ some a
    → (t : Task) × (find task_id j (run cs r).tasks ≡ some t)
unfolding run
run_found [] r j a e = (a, e)
run_found (c ∷ cs) r j a e = let (b, f, _) = step-Follows c r j a e in run_found cs (step c r) j b f

abbrev pub IsIdle : Task → Type 0
IsIdle t = is_active t.state ≡ false

cancel-IsIdle : (now : Text) (ts : List Task) → All IsIdle (map (cancel_task now) ts)
unfolding cancel_task
cancel-IsIdle now [] = tt
cancel-IsIdle now (t ∷ ts) = (ground arith, cancel-IsIdle now ts)

-- What has become of a task of the queue that was stopped: an active one is cancelled, one that was
-- over is as it was, and one that waits is not bound to a state.
abbrev pub IsStopped : Task → Task → Type 0
IsStopped a t =
    ((is_active a.state ≡ true) × (t.state ≡ cancelled))
    ⊎ ((IsSettled a.state × (t.state ≡ a.state))
        ⊎ ((is_active a.state ≡ false) × ¬ IsSettled a.state))

find-stopped :
    (now : Text) (r : Runtime) (j : Text) (a : Task)
    → find task_id j r.tasks ≡ some a
    → find task_id j (kill_switch now r).1.tasks ≡ some (cancel_task now a)
unfolding kill_switch
find-stopped now r j a e =
    rw (find-map task_id (cancel_task now) (task_id-cancel now) j r.tasks, e) refl

state_cases :
    (s : TaskState) → (is_active s ≡ true) ⊎ (IsSettled s ⊎ ((is_active s ≡ false) × ¬ IsSettled s))
unfolding is_active TaskState-discrete
state_cases s = ground arith

cancel_task-active :
    (now : Text) (a : Task) → is_active a.state ≡ true → (cancel_task now a).state ≡ cancelled
unfolding cancel_task
cancel_task-active now a h = ground arith

cancel_task-settled :
    (now : Text) (a : Task) → IsSettled a.state → (cancel_task now a).state ≡ a.state
unfolding cancel_task is_active TaskState-discrete
cancel_task-settled now a h = ground arith

cancel_task-kept : (now : Text) (a : Task) → is_active a.state ≡ false → cancel_task now a ≡ a
unfolding cancel_task
cancel_task-kept now a h = rw (cancel_task, h) refl

kill_switch-IsStopped :
    (now : Text) (r : Runtime) (cs : List Call) (j : Text) (a : Task)
    → find task_id j r.tasks ≡ some a
    → (t : Task) × (find task_id j (run cs (kill_switch now r).1).tasks ≡ some t) × IsStopped a t
kill_switch-IsStopped now r cs j a e = elim (state_cases a.state) [
  | inl h ↦
      let c = cancel_task-active now a h in
      let (t, f, q) = run-settled cs _ j _ (find-stopped now r j a e) (inl c) in
      (t, f, inl (h, q ∙ c))
  | inr (inl h) ↦
      let c = cancel_task-settled now a h in
      let (t, f, q) = run-settled cs _ j _ (find-stopped now r j a e) (subst IsSettled (sym c) h) in
      (t, f, inr (inl (h, q ∙ c)))
  | inr (inr h) ↦ let (t, f) = run_found cs _ j _ (find-stopped now r j a e) in (t, f, inr (inr h))
]

-- After the emergency stop, whatever the queue was, the flag is up and no task is queued, running or
-- awaiting approval. Each task that the queue had under an id is still found there, however the
-- history goes on: cancelled if it was queued, running or awaiting approval, and in the state that it
-- had if it was cancelled or completed.
pub kill_switch_stops :
    (now : Text) (r : Runtime) (cs : List Call) (j : Text)
    → (is_kill_switch_active (kill_switch now r).1 ≡ true)
      × All IsIdle (kill_switch now r).1.tasks
      × ((find task_id j r.tasks ≡ none)
          ⊎ ((a : Task) × (find task_id j r.tasks ≡ some a)
              × ((t : Task) × (find task_id j (run cs (kill_switch now r).1).tasks ≡ some t)
                  × IsStopped a t)))
unfolding is_kill_switch_active kill_switch
kill_switch_stops now r cs j = (
  refl,
  cancel-IsIdle now r.tasks,
  elim (Option-cases (find task_id j r.tasks)) [
    | inl e ↦ inl e
    | inr (a, e) ↦ inr (a, e, kill_switch-IsStopped now r cs j a e)
  ],
)

abbrev pub count_in : TaskState → List Task → ℕ
count_in s [] = 0
count_in s (t ∷ ts) = (if same_state t.state s then 1 else 0) + count_in s ts

count_in-cancel :
    (now : Text) (ts : List Task)
    → count_in cancelled (map (cancel_task now) ts) ≡ count_in cancelled ts + stopped_count ts
unfolding cancel_task stopped_count
count_in-cancel now [] = refl
count_in-cancel now (t ∷ ts) = ground (arith, count_in-cancel now ts)

-- The number that the stop reports is the number of tasks that it turned into cancelled ones.
pub count_in-kill_switch :
    (now : Text) (r : Runtime)
    → count_in cancelled (kill_switch now r).1.tasks
      ≡ count_in cancelled r.tasks + (kill_switch now r).0
unfolding kill_switch
count_in-kill_switch now r = count_in-cancel now r.tasks

-- The emergency stop is lifted by consuming an approval of the queue, which is then spent for any
-- later resumption; the tasks are as they were, so what the stop cancelled stays cancelled.
pub resume_spends_approval :
    (sanitize : Text → Text) (id now later : Text) (approvals : List Approval) (r s : Runtime)
    (left : List Approval) (calls : List Lifecycle.Call)
    → resume_after_kill_switch sanitize id now approvals r ≡ ok (left, s)
    → (is_kill_switch_active s ≡ false)
      × (s.tasks ≡ r.tasks)
      × (resume_after_kill_switch sanitize id later (Lifecycle.run sanitize calls left) s
          ≡ err wrong_status)
unfolding resume_after_kill_switch is_kill_switch_active
resume_spends_approval sanitize id now later approvals r s left calls e =
    let (w, f, q) =
      >>=-ok (consume_action_approval sanitize id resume_scope none now approvals) _ e in
    let kept : w.1 ≡ left = cc in
    let spent =
      Lifecycle.consume_once sanitize id resume_scope resume_scope none none now later approvals w
        calls f in
    (ground arith, ground arith, rw (← kept) (rw spent))

-- Nothing in the queue says that a task may have acted on the outside.
abbrev pub NoneExternal : List Task → Type 0
NoneExternal = All λ t. t.external_side_effect ≡ false

NoneExternal-append :
    (ts : List Task) (t : Task)
    → t.external_side_effect ≡ false
    → NoneExternal ts
    → NoneExternal (ts ++ t ∷ [])
NoneExternal-append [] t e h = (e, tt)
NoneExternal-append (u ∷ ts) t e h = (h.0, NoneExternal-append ts t e h.1)

NoneExternal-map :
    (f : Task → Task)
    → ((t : Task) → (f t).external_side_effect ≡ t.external_side_effect)
    → (ts : List Task) → NoneExternal ts
    → NoneExternal (map f ts)
NoneExternal-map f keeps [] h = tt
NoneExternal-map f keeps (t ∷ ts) h = (keeps t ∙ h.0, NoneExternal-map f keeps ts h.1)

NoneExternal-replace :
    (k : Text) (v : Task) (ts : List Task)
    → v.external_side_effect ≡ false
    → NoneExternal ts
    → NoneExternal (replace task_id k v ts)
unfolding replace
NoneExternal-replace k v [] e h = tt
NoneExternal-replace k v (t ∷ ts) e h = ground (arith, NoneExternal-replace k v ts e h.1)

NoneExternal-find :
    (k : Text) (ts : List Task) (t : Task)
    → NoneExternal ts
    → find task_id k ts ≡ some t
    → t.external_side_effect ≡ false
unfolding find
NoneExternal-find k [] t h e = cc
NoneExternal-find k (u ∷ ts) t h e = ground (arith, NoneExternal-find k ts t h.1)

step-NoneExternal : (c : Call) (r : Runtime) → NoneExternal r.tasks → NoneExternal (step c r).tasks
unfolding step recover_interrupted_tasks kill_switch
step-NoneExternal (enqueue kind summary priority key fresh_key fresh_id now) r h =
    unfold enqueue_task in
    elim (Option-cases (find task_key (clean_key key fresh_key) r.tasks)) [
      | inl f ↦ rw (f, enqueue_task) (NoneExternal-append r.tasks _ refl h)
      | inr (t, f) ↦ rw (f, enqueue_task) h
    ]
step-NoneExternal (update id state now) r h =
    update_cases NoneExternal r.tasks id state now h λ s t f m.
      NoneExternal-replace t.id (in_state s now t) r.tasks (NoneExternal-find id r.tasks t h f) h
step-NoneExternal (recover now) r h =
    NoneExternal-map (recover_task now) (λ t. unfold recover_task in ground arith) r.tasks h
step-NoneExternal (kill now) r h =
    NoneExternal-map (cancel_task now) (λ t. unfold cancel_task in ground arith) r.tasks h

run-NoneExternal :
    (cs : List Call) (r : Runtime) → NoneExternal r.tasks → NoneExternal (run cs r).tasks
unfolding run
run-NoneExternal [] r h = h
run-NoneExternal (c ∷ cs) r h = run-NoneExternal cs (step c r) (step-NoneExternal c r h)

-- In no history that starts with an empty queue does recovery hold a running task back for review:
-- nothing ever records that a task may have acted on the outside.
pub recover_never_reviews :
    (cs : List Call) (r : Runtime) (j now : Text) (t : Task)
    → r.tasks ≡ []
    → find task_id j (run cs r).tasks ≡ some t
    → t.state ≡ running
    → (u : Task) × (find task_id j (step (recover now) (run cs r)).tasks ≡ some u)
      × (u.state ≡ queued)
unfolding step recover_interrupted_tasks
recover_never_reviews cs r j now t empty e h =
    let none_external = run-NoneExternal cs r (rw empty tt) in
    let quiet = NoneExternal-find j (run cs r).tasks t none_external e in
    (
      recover_task now t,
      rw (find-map task_id (recover_task now) (task_id-recover now) j (run cs r).tasks, e),
      unfold recover_task in ground arith,
    )
