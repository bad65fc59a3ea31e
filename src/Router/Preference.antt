-- ===== src/Router/Preference.antt =====
-- Which worker a task is routed to, and what the execution of its route starts.
use personal_ai_model.Prelude.{
  ◌≡◌, ◌⊎◌, ◌∙◌, refl, Bool, true, false, arith, if◌then◌else◌, subst, sym,
}
use personal_ai_model.Prelude.Text.{Text, strip, is_space, is_empty}
use personal_ai_model.Prelude.Result.{ok, err, >>=-ok, ok-injective, raise_if}
use personal_ai_model.Router.{
  Category, small, large, research, Worker, aider, jcode, hermes, Host, Selection, Runners,
  check_worker_availability, classify_task_size, choose, first_available, select_worker,
  plan_possible, route_task, execute_route, empty_task, not_possible, no_aider, ran_by,
}

abbrev plan : Worker → Bool → Selection
plan w possible = record { worker = w; execution_possible = possible }

-- The decision for each kind of task, as a table over what stands on the PATH. A small task goes to
-- Aider, or else to JCode, or else to Hermes; a large one to JCode, or else to Aider; research to Aider,
-- or else to Hermes; and each to Aider where nothing is there. Hermes never executes, and JCode only
-- with the opt-in: without it a large task stays with JCode, unexecuted, even where Aider is there.
abbrev pub decision : Category → Host → Selection
decision small h =
    if h.aider_path
    then plan aider true
    else if h.jcode_path
    then plan jcode h.jcode_opted_in
    else if h.hermes_path
    then plan hermes false
    else plan aider false
decision large h =
    if h.jcode_path
    then plan jcode h.jcode_opted_in
    else if h.aider_path
    then plan aider true
    else plan aider false
decision research h =
    if h.aider_path
    then plan aider true
    else if h.hermes_path
    then plan hermes false
    else plan aider false

abbrev routed : Category → Host → Selection
routed category h =
    let s = select_worker category (check_worker_availability h) in
    record s { execution_possible = plan_possible h s }

routed-decision : (category : Category) (h : Host) → routed category h ≡ decision category h
unfolding select_worker choose first_available check_worker_availability
routed-decision small h = ground arith
routed-decision large h = ground arith
routed-decision research h = ground arith

-- A task that is not blank is routed, whatever the host has: to Aider if it is small or research and
-- Aider is on the PATH, or large and only Aider is; to JCode if it is large and JCode is on the PATH, or
-- small and JCode is and Aider is not; to Hermes if Aider is not there, nor JCode for a small task, and
-- Hermes is, but never for a large one; and to Aider, unexecuted, where none of these is there. The
-- plan can be executed by Aider where it is on the PATH and by JCode with the opt-in, never by Hermes.
pub route_task-decision :
    (is_research is_large : Text → Bool) (h : Host) (task : Text)
    → is_empty (strip is_space task) ≡ false
    → route_task is_research is_large h task
      ≡ ok (decision (classify_task_size is_research is_large (strip is_space task)) h)
unfolding route_task
route_task-decision is_research is_large h task named =
    rw
      (
        route_task,
        named,
        routed-decision (classify_task_size is_research is_large (strip is_space task)) h,
      )
      refl

-- What the execution of a route does, on a host that may differ from that of the routing: it starts
-- nothing; or it starts Aider, if it is still there; or it starts JCode.
abbrev pub Executes : {R : Type 0} → Runners R → Host → Host → Selection → Type 0
Executes run h later s =
    ((s.execution_possible ≡ false) × (execute_route run later s ≡ (err not_possible, later)))
    ⊎ (((s.worker ≡ aider)
          × (h.aider_path ≡ true)
          × (execute_route run later s ≡ (
            if later.aider_path then ran_by aider (run.launch_aider later) else err no_aider,
            later,
          )))
        ⊎ ((s.worker ≡ jcode)
            × (h.jcode_path ≡ true)
            × (h.jcode_opted_in ≡ true)
            × (execute_route run later s ≡ (
              ran_by jcode (run.jcode_in_sandbox (record later { jcode_opted_in = true })),
              record later { jcode_opted_in = true },
            ))))

decision-Executes :
    {R : Type 0} (run : Runners R) (h later : Host) (category : Category)
    → Executes run h later (decision category h)
unfolding execute_route
decision-Executes run h later small = ground arith
decision-Executes run h later large = ground arith
decision-Executes run h later research = ground arith

-- From the routing to the execution, on a host that may have changed in between: a plan that cannot be
-- executed starts nothing. Else the worker is Aider, which was on the PATH when the task was routed and
-- is started if it still is; or JCode, which was on the PATH and opted in to then: it is started with
-- the opt-in given again, even where it has been withdrawn since, and the opt-in stays, whether or not
-- JCode raises.
pub route_task-Executes :
    {R : Type 0} (is_research is_large : Text → Bool) (run : Runners R) (h later : Host)
    (task : Text) (s : Selection)
    → route_task is_research is_large h task ≡ ok s
    → Executes run h later s
unfolding route_task
route_task-Executes is_research is_large run h later task s e =
    let (_, _, f) = >>=-ok (raise_if (is_empty (strip is_space task)) empty_task) _ e in
    let category = classify_task_size is_research is_large (strip is_space task) in
    subst (Executes run h later) (sym (routed-decision category h) ∙ ok-injective f)
      (decision-Executes run h later category)
