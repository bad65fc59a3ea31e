-- ===== src/Router/Tests.antt =====
-- A refactoring on a host that has JCode.
use personal_ai_model.Prelude.{◌≡◌, refl, Bool, true, false, if◌then◌else◌}
use personal_ai_model.Prelude.Text.{Text, codes, strip, is_space, is_empty}
use personal_ai_model.Prelude.Result.{ok, err}
use personal_ai_model.Router.{
  jcode, Host, Selection, Runners, check_worker_availability, classify_task_size, select_worker,
  choose, first_available, route_task, execute_route, worker_failed,
}
use personal_ai_model.Router.Preference.{
  decision, Executes, route_task-decision, route_task-Executes,
}

abbrev never : Text → Bool
never task = false

abbrev always : Text → Bool
always task = true

abbrev host : Bool → Host
host opted_in = record {
  aider_path = true;
  jcode_path = true;
  hermes_path = false;
  jcode_opted_in = opted_in;
}

abbrev routed_plan : Selection
routed_plan = record { worker = jcode; execution_possible = true }

-- A sandbox that wants the opt-in and answers a code, and an Aider that fails.
abbrev runners : Runners Text
runners = record {
  jcode_in_sandbox = λ h. if h.jcode_opted_in then ok (codes "0") else err worker_failed;
  launch_aider = λ h. err worker_failed;
}

named : is_empty (strip is_space (codes "refactor")) ≡ false
unfolding strip
named = refl

routed_now : route_task never always (host true) (codes "refactor") ≡ ok routed_plan
unfolding route_task classify_task_size select_worker choose first_available
    check_worker_availability strip
routed_now = refl

route_task-decision_example :
    route_task never always (host true) (codes "refactor")
    ≡ ok
        (decision (classify_task_size never always (strip is_space (codes "refactor"))) (host true))
route_task-decision_example = route_task-decision never always (host true) (codes "refactor") named

route_task-Executes_example : Executes runners (host true) (host false) routed_plan
route_task-Executes_example =
    route_task-Executes never always runners (host true) (host false) (codes "refactor") routed_plan
      routed_now

executed : execute_route runners (host false) routed_plan ≡ (ok (jcode, codes "0"), host true)
unfolding execute_route
executed = refl
