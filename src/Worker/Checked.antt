-- ===== src/Worker/Checked.antt =====
-- Which tickets of the supervisor the worker takes.
use personal_ai_model.Prelude.{
  ℕ, suc, zero, ◌≤◌, ◌<◌, ◌≡◌, ◌≢◌, refl, true, false, Option, some, List, [], ◌∷◌, arith, inl, inr,
  get_elem?, length, take, All, Bool-cases, ap,
}
use personal_ai_model.Prelude.Text.{Text, ◌==?◌, ==-refl, is_empty, text_discrete}
use personal_ai_model.Prelude.Result.{ok, err}
use personal_ai_model.Execution.{
  Executor, ollama, freebuff, omniroute, primary_review, Stage, Execution, pending,
}
use personal_ai_model.Execution.Show.{next_execution_stage, serialize_stage}
use personal_ai_model.Worker.{
  Ticket, write_ticket, bounded, ticket_state, names_prohibited, same_executor, text_differs,
  is_ready, other_task, ready,
}
use personal_ai_model.Worker.Tickets.{check_ticket, ready_tickets}

same_executor_refl : (e : Executor) → same_executor e e ≡ true
same_executor_refl ollama = refl
same_executor_refl freebuff = refl
same_executor_refl omniroute = refl
same_executor_refl primary_review = refl

==?-refl : (s : Option Text) → (s ==? s) ≡ true
==?-refl s = ground arith

text_differs-same : (s t : Text) → t ≡ s → text_differs s t ≡ false
text_differs-same s t e = ground arith

-- The stage is one that the supervisor offers to the worker, and the worker can name.
pub record Offered (r : Execution) (s : Stage) : Type 0 where
  pub is_current : get_elem? r.stages r.current_stage_index ≡ some s
  pub is_waiting : s.state ≡ pending
  pub is_work : s.executor ≢ primary_review
  pub is_named : (is_empty r.id ≡ false) × (is_empty s.id ≡ false)
  pub is_permitted : names_prohibited s.model ≡ false

ticket_state-ready :
    (s : Stage)
    → s.executor ≢ primary_review
    → names_prohibited s.model ≡ false
    → ticket_state s ≡ ready
unfolding ticket_state
ticket_state-ready s work allowed = ground arith

next-offered :
    (r : Execution) (s : Stage)
    → get_elem? r.stages r.current_stage_index ≡ some s
    → (next_execution_stage r).stage ≡ some (serialize_stage true s)
unfolding next_execution_stage
next-offered r s e = rw (next_execution_stage, e) refl

-- A ticket that the supervisor has written for the current stage of a record is taken by the worker,
-- where the stage is pending and not the primary review, names no prohibited model, neither its id nor
-- the record's is empty, and the task and the purpose were not changed by the bound on the texts of a
-- ticket, and where no emergency stop is active.
pub check_ticket-write_ticket :
    (now : Text) (r : Execution) (s : Stage) (tickets : List Ticket)
    → Offered r s
    → bounded r.task ≡ r.task
    → bounded s.purpose ≡ s.purpose
    → check_ticket false (write_ticket now r s tickets).0 r ≡ ok (serialize_stage true s)
unfolding check_ticket write_ticket serialize_stage
check_ticket-write_ticket now r s tickets o same_task same_purpose =
    rw
      (
        check_ticket,
        write_ticket,
        ticket_state-ready s o.is_work o.is_permitted,
        o.is_permitted,
        o.is_named.0,
        o.is_named.1,
        next-offered r s o.is_current,
        ==-refl s.id,
        o.is_waiting,
        text_differs-same r.task (bounded r.task) same_task,
        text_differs-same s.purpose (bounded s.purpose) same_purpose,
        same_executor_refl s.executor,
        ==?-refl s.provider,
        ==?-refl s.model,
      )
      refl

length-take : {A : Type 0} (n : ℕ) (xs : List A) → length (take n xs) ≤ n
length-take zero xs = omega arith
length-take (suc n) [] = omega arith
length-take (suc n) (x ∷ xs) = omega (arith, length-take n xs)

bounded-length : (t : Text) → length (bounded t) ≤ 500
unfolding bounded
bounded-length t = length-take 500 _

bounded-differs : (t : Text) → 500 < length t → text_differs t (bounded t) ≡ true
unfolding bounded
bounded-differs [] h = absurd (omega (arith, h))
bounded-differs (c ∷ t) h = elim (text_discrete (bounded (c ∷ t)) (c ∷ t)) [
  | yes e ↦ absurd (bounded_not_same e)
  | no n ↦ ground arith
]
  where
    bounded_not_same : bounded (c ∷ t) ≡ c ∷ t → ⊥
    bounded_not_same e = omega (arith, h, bounded-length (c ∷ t), ap length e)

-- A ticket of an execution whose task is longer than 500 characters is never taken: it carries the task cut off,
-- and the worker compares it with the whole one.
pub check_ticket-long_task :
    (now : Text) (r : Execution) (s : Stage) (tickets : List Ticket)
    → Offered r s
    → 500 < length r.task
    → check_ticket false (write_ticket now r s tickets).0 r ≡ err other_task
unfolding check_ticket write_ticket serialize_stage
check_ticket-long_task now r s tickets o long =
    rw
      (
        check_ticket,
        write_ticket,
        ticket_state-ready s o.is_work o.is_permitted,
        o.is_permitted,
        o.is_named.0,
        o.is_named.1,
        next-offered r s o.is_current,
        ==-refl s.id,
        o.is_waiting,
        bounded-differs r.task long,
      )
      refl

abbrev pub IsReady : Ticket → Type 0
IsReady t = is_ready t.state ≡ true

-- No more tickets are listed than asked for, and all of them are ready.
pub ready_tickets-bounded :
    (limit inspect : ℕ) (tickets : List Ticket)
    → (length (ready_tickets limit inspect tickets) ≤ limit)
      × All IsReady (ready_tickets limit inspect tickets)
unfolding ready_tickets
ready_tickets-bounded zero inspect tickets = (omega arith, tt)
ready_tickets-bounded (suc limit) zero tickets = (omega arith, tt)
ready_tickets-bounded (suc limit) (suc inspect) [] = (omega arith, tt)
ready_tickets-bounded (suc limit) (suc inspect) (t ∷ tickets) =
    let kept = ready_tickets-bounded limit inspect tickets in
    let skipped = ready_tickets-bounded (suc limit) inspect tickets in
    elim (Bool-cases (is_ready t.state)) [
      | inl e ↦ rw (e) (omega (arith, kept.0), (e, kept.1))
      | inr e ↦ rw (e) skipped
    ]
