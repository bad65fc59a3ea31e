-- ===== src/Execution/Examples.antt =====
-- Data of the tests: a plan of one stage, the primary review.
use personal_ai_model.Prelude.{◌+◌, ◌*◌, ℕ, Bool, none, List, [], ◌∷◌, true, false}
use personal_ai_model.Prelude.Text.{Text, codes}
use personal_ai_model.Execution.{
  Stage, RecordStatus, Execution, passed, pending, primary_review, second,
}
use personal_ai_model.Execution.Claim.{Env, as_claimed}
use personal_ai_model.Execution.Outcome.{Report}
use personal_ai_model.Execution.PlanExecution.{Inputs}

abbrev pub same : Text → Text
same t = t

abbrev pub root : List Text
root = codes "p" ∷ []

-- A file system without links: a path is its one name below the root.
abbrev pub resolve : Text → List Text
resolve t = codes "p" ∷ t ∷ []

abbrev pub none_protected : Text → Bool
none_protected t = false

abbrev pub any_alnum : ℕ → Bool
any_alnum c = true

abbrev pub inputs : Inputs
inputs = record {
  stopped = false;
  existing = none;
  orchestration = record {
    status = codes "dispatched";
    task = codes "t";
    task_type = codes "review";
    paths = codes "out" ∷ [];
    preview_requires_change = false;
  };
  health = [];
  routes = λ t. [];
  freebuff_available = false;
  stamp = codes "now";
}

abbrev pub review : Stage
review = record {
  id = codes "stage-1";
  executor = primary_review;
  provider = none;
  model = none;
  purpose = codes "Manual primary-model final-green-signal";
  selection_reason = codes "Mandatory final authority: user or configured primary model";
  state = pending;
  attempt_count = 0;
  lease_id = none;
  lease_expires_at = none;
  dispatch_id = none;
  dispatched_at = none;
  evidence = [];
  artifact_path = none;
  adapter_target = none;
  adapter_token = none;
  allowed_paths = codes "out" ∷ [];
  artifacts_changed = [];
}

abbrev pub record_of : RecordStatus → Stage → Execution
record_of status s = record {
  id = codes "exec-1";
  orchestration_id = codes "orch-1";
  task = codes "t";
  task_type = codes "review";
  status = status;
  stages = s ∷ [];
  current_stage_index = 0;
  created_at = codes "now";
  updated_at = codes "now";
  events = [];
}

abbrev pub env : ℕ → Env
env now = record {
  stopped = false;
  now = now;
  stamp = codes "now";
  health = [];
  blocked_until = λ p m. none;
}

abbrev pub leased : Stage
leased = as_claimed (codes "L") (5 + 60 * second) review

abbrev pub result : Report
result = record {
  stage_id = codes "stage-1";
  lease_id = codes "L";
  outcome = codes "passed";
  evidence = codes "checked";
  artifact_path = none;
  artifacts_changed = codes "out" ∷ [];
  dispatch_id = none;
  adapter_target = none;
  adapter_token = none;
}

abbrev pub reviewed : Stage
reviewed = record leased {
  state = passed;
  evidence = codes "checked";
  artifacts_changed = codes "out" ∷ [];
}
