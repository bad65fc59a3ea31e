-- ===== src/Execution/PlanTests.antt =====
-- A plan, and its life from the first claim to the review.
use personal_ai_model.Prelude.{◌≡◌, refl, some, List, [], ◌∷◌, true, false, All}
use personal_ai_model.Prelude.Text.{
  starts_with, contains, Text, codes, text_discrete, optional_discrete,
}
use personal_ai_model.Prelude.Result.{ok}
use personal_ai_model.Core.{markdown_escape}
use personal_ai_model.ModelPolicy.{is_model_allowed, normalize_model_id}
use personal_ai_model.Execution.Advance.{advance}
use personal_ai_model.Health.{is_healthy, error_count_of, entry_or_new}
use personal_ai_model.Prelude.Keyed.{find}
use personal_ai_model.Execution.{Execution, running, completed, passed, append_event, save}
use personal_ai_model.Execution.Claim.{release_expired, check_route, claim_execution_stage}
use personal_ai_model.Execution.Artifacts.{
  any_sensitive, one_of, validate_artifacts, safe_artifact_paths, check_allowed,
}
use personal_ai_model.Execution.Outcome.{
  outcome_named, is_replay, record_current, record_execution_result, settle_stage, check_current,
  find_replay, settled_record,
}
use personal_ai_model.Execution.Planning.{
  filter_routes, add_freebuff, add_best, add_omniroute, add_review, add_final, ordinary_stages,
  add_local, final_candidate, classify_usage, Route, Sources, finals, plan_stages,
}
use personal_ai_model.Execution.PlanExecution.{
  plan_new, is_execution_id, is_id_text, remove_prefix, normalize_paths, new_execution,
  plan_execution,
}
use personal_ai_model.Execution.Steps.{Call, claim, report, step, run}
use personal_ai_model.Execution.Review.{PassedReview}
use personal_ai_model.Execution.Undispatched.{replay_idem}
use personal_ai_model.Execution.Show.{
  next_execution_stage, show_execution, IsRedacted, stage_shows_token, shown-IsRedacted,
}
use personal_ai_model.Execution.Fresh.{FreshUpTo, plan_stages-FreshUpTo}
use personal_ai_model.Execution.Planned.{plan_execution-reviewed}
use personal_ai_model.Execution.Paths.{effective_parts, any_sensitive-effective, has_slash}
use personal_ai_model.Execution.Examples.{
  same, root, resolve, none_protected, any_alnum, inputs, record_of, env, leased, result,
}

abbrev planned_now : Execution
planned_now =
    new_execution same none_protected any_alnum inputs (codes "exec-1") (codes "orch-1")
      (codes "review") (codes "out" ∷ [])

plans : plan_execution same none_protected any_alnum inputs (codes "orch-1") ≡ ok planned_now
unfolding plan_execution plan_new is_execution_id is_id_text remove_prefix normalize_paths
    markdown_escape text_discrete starts_with
plans = refl

abbrev life : List Call
life =
    claim (env 5) (codes "stage-1") 60 (codes "L")
    ∷ report (codes "now") (record result { artifacts_changed = [] })
    ∷ []

completes : (run root resolve life planned_now).status ≡ completed
unfolding run step new_execution plan_stages add_review add_final add_best ordinary_stages
    add_omniroute add_local add_freebuff filter_routes append_event save claim_execution_stage
    release_expired check_route text_discrete record_execution_result outcome_named find_replay
    is_replay optional_discrete record_current check_current settle_stage markdown_escape
    validate_artifacts safe_artifact_paths check_allowed settled_record advance
completes = refl

plan_execution-reviewed_example : PassedReview (run root resolve life planned_now)
plan_execution-reviewed_example =
    plan_execution-reviewed same none_protected any_alnum inputs (codes "orch-1") planned_now root
      resolve life refl plans completes

abbrev last_route : Route
last_route = record {
  provider = codes "local-omniroute";
  model = codes "m";
  cost_tier = codes "free";
  usage_class = codes "final-review";
  route_priority = codes "1";
}

abbrev routed : Sources
routed = record {
  task = codes "t";
  paths = codes "out" ∷ [];
  health = [];
  routes = last_route ∷ [];
  include_freebuff = true;
}

has_final : finals routed ≡ last_route ∷ []
unfolding filter_routes final_candidate classify_usage is_model_allowed text_discrete is_healthy
    error_count_of find entry_or_new normalize_model_id contains
has_final = refl

plan_stages-FreshUpTo_example : FreshUpTo 6 (plan_stages routed)
plan_stages-FreshUpTo_example = plan_stages-FreshUpTo routed

abbrev vault_path : List Text
vault_path = codes ".agent" ∷ codes "vault.json" ∷ []

vault_parts :
    All (λ part. (has_slash part ≡ false) × (one_of part effective_parts ≡ false)) vault_path
unfolding has_slash one_of text_discrete
vault_parts = ((refl, refl), ((refl, refl), tt))

any_sensitive-effective_example : any_sensitive vault_path ≡ false
any_sensitive-effective_example = any_sensitive-effective vault_path vault_parts

accepts_planned :
    record_execution_result root resolve
      (codes "now")
      (record result { artifacts_changed = [] })
      (run root resolve (claim (env 5) (codes "stage-1") 60 (codes "L") ∷ []) planned_now)
    ≡ ok (passed, run root resolve life planned_now)
unfolding run step new_execution plan_stages add_review add_final add_best ordinary_stages
    add_omniroute add_local add_freebuff filter_routes append_event save claim_execution_stage
    release_expired check_route text_discrete record_execution_result outcome_named find_replay
    is_replay optional_discrete record_current check_current settle_stage markdown_escape
    validate_artifacts safe_artifact_paths check_allowed settled_record advance
accepts_planned = refl

replay_idem_example :
    record_execution_result root resolve
      (codes "later")
      (record result { artifacts_changed = [] })
      (run root resolve life planned_now)
    ≡ ok (passed, run root resolve life planned_now)
replay_idem_example =
    replay_idem same none_protected any_alnum inputs (codes "orch-1") planned_now root resolve
      (claim (env 5) (codes "stage-1") 60 (codes "L") ∷ []) (codes "now") (codes "later")
      (record result { artifacts_changed = [] }) (passed, run root resolve life planned_now) refl
      plans accepts_planned

abbrev tokened : Execution
tokened = record_of running (record leased { adapter_token = some (codes "secret") })

shown-IsRedacted_example :
    All IsRedacted (show_execution tokened).stages
    × (stage_shows_token (next_execution_stage tokened).stage ≡ false)
shown-IsRedacted_example = shown-IsRedacted tokened
