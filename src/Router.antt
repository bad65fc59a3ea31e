-- ===== src/Router.antt =====
-- src/guardian_agent/worker_router.py, with `classify_task_size` of aider.py: which coding worker a task goes to. The
-- regular expressions, the binaries on the PATH and what the workers do are arguments; handoffs are left out.
pub mod Preference
mod Tests
use personal_ai_model.Prelude.{
  ℕ, suc, Bool, true, false, not, ◌&&◌, ◌||◌, Option, none, some, List, [], ◌∷◌, if◌then◌else◌, ltb,
  length, nat_eq,
}
use personal_ai_model.Prelude.Text.{Text, codes, strip, is_space, is_empty}
use personal_ai_model.Prelude.Result.{Result, ok, err, ◌>>=◌, ◌>>◌, raise_if}

pub data Category : Type 0 where
  small large research : Category

pub data Worker : Type 0 where
  aider jcode hermes : Worker

-- What stands on the PATH, and whether the user has opted in to JCode.
pub record Host : Type 0 where
  pub aider_path : Bool
  pub jcode_path : Bool
  pub hermes_path : Bool
  pub jcode_opted_in : Bool

pub record Info : Type 0 where
  pub available : Bool
  pub execution_disabled : Bool

unfoldable pub check_worker_availability : Host → Worker → Info
check_worker_availability h aider = record { available = h.aider_path; execution_disabled = false }
check_worker_availability h jcode = record { available = h.jcode_path; execution_disabled = false }
check_worker_availability h hermes = record { available = h.hermes_path; execution_disabled = true }

-- task.count("\n")
unfoldable pub count_lines : Text → ℕ
count_lines [] = 0
count_lines (c ∷ s) = let rest = count_lines s in if nat_eq c 10 then suc rest else rest

unfoldable pub classify_task_size : (Text → Bool) → (Text → Bool) → Text → Category
unfolding strip count_lines
classify_task_size is_research is_large task =
    let clean_task = strip is_space task in
    if is_empty clean_task
    then small
    else if is_research clean_task
    then research
    else if is_large clean_task || ltb 5 (count_lines clean_task) || ltb 500 (length clean_task)
    then large
    else small

abbrev pub fallback_chain : Category → List Worker
fallback_chain research = hermes ∷ aider ∷ []
fallback_chain large = jcode ∷ aider ∷ []
fallback_chain small = aider ∷ jcode ∷ hermes ∷ []

abbrev pub or_first : Option Worker → Worker → Option Worker
or_first none w = some w
or_first (some s) w = some s

pub record Selection : Type 0 where
  pub worker : Worker
  pub execution_possible : Bool

-- What the loop has selected, and whether it broke off at a worker that can execute.
abbrev pub Chosen : Type 0
Chosen = Option Worker × Bool

-- The first loop over the chain.
unfoldable pub choose : (Worker → Info) → List Worker → Option Worker → Chosen
choose info [] selected = (selected, false)
choose info (w ∷ ws) selected =
    let kept = choose info ws (or_first selected w) in
    let skipped = choose info ws selected in
    if (info w).available && not (info w).execution_disabled
    then (some w, true)
    else if (info w).available
    then kept
    else skipped

-- The second loop: the first worker that is available.
unfoldable pub first_available : (Worker → Info) → List Worker → Option Worker
first_available info [] = none
first_available info (w ∷ ws) =
    let rest = first_available info ws in if (info w).available then some w else rest

abbrev pub worker_or : Option Worker → Worker → Worker
worker_or none w = w
worker_or (some s) w = s

abbrev pub selected_or : Option Worker → Option Worker → Option Worker
selected_or none o = o
selected_or (some w) o = some w

unfoldable pub select_worker : Category → (Worker → Info) → Selection
select_worker category info =
    let chosen = choose info (fallback_chain category) none in
    record {
      worker =
          worker_or (selected_or chosen.0 (first_available info (fallback_chain category))) aider;
      execution_possible = chosen.1;
    }

-- The worker's own conditions: JCode's opt-in, Hermes never, Aider's binary.
abbrev pub plan_possible : Host → Selection → Bool
plan_possible h s = elim s.worker [
  | jcode ↦ if not h.jcode_opted_in && s.execution_possible then false else s.execution_possible
  | hermes ↦ false
  | aider ↦ if not h.aider_path then false else s.execution_possible
]

-- `worker_failed` is what a worker raises.
pub data RouterError : Type 0 where
  empty_task not_possible hermes_disabled no_aider worker_failed : RouterError

-- The decision: the worker, and whether the plan can be executed.
unfoldable pub route_task :
    (Text → Bool) → (Text → Bool) → Host → Text → Result RouterError Selection
unfolding strip
route_task is_research is_large h task = do
  let clean_task = strip is_space task
  raise_if (is_empty clean_task) empty_task
  let s =
      select_worker (classify_task_size is_research is_large clean_task)
        (check_worker_availability h)
  ok (record s { execution_possible = plan_possible h s })

-- What `execute_jcode_in_sandbox` and `launch_aider` do on the host they find: they raise, or they end
-- with a result.
pub record Runners (R : Type 0) : Type 0 where
  pub jcode_in_sandbox : Host → Result RouterError R
  pub launch_aider : Host → Result RouterError R

-- The answer of an execution, and the host afterwards.
abbrev pub RouteAnswer : Type 0 → Type 0
RouteAnswer R = Result RouterError (Worker × R) × Host

abbrev pub ran_by : {R : Type 0} → Worker → Result RouterError R → Result RouterError (Worker × R)
ran_by w (err x) = err x
ran_by w (ok r) = ok (w, r)

abbrev pub execute_worker : {R : Type 0} → Runners R → Host → Worker → RouteAnswer R
execute_worker run h jcode =
    let opted_in = record h { jcode_opted_in = true } in
    (ran_by jcode (run.jcode_in_sandbox opted_in), opted_in)
execute_worker run h hermes = (err hermes_disabled, h)
execute_worker run h aider =
    if not h.aider_path then (err no_aider, h) else (ran_by aider (run.launch_aider h), h)

unfoldable pub execute_route : {R : Type 0} → Runners R → Host → Selection → RouteAnswer R
execute_route run h route =
    let worker = execute_worker run h route.worker in
    if not route.execution_possible then (err not_possible, h) else worker
