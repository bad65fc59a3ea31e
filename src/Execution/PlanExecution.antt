-- ===== src/Execution/PlanExecution.antt =====
-- `plan_execution` of execution.py: the guards, and the new record. `classify` is the task class of
-- orchestration.py, `is_protected` the match of `_PROTECTED_PATH_PATTERNS` by Python's `re`, and
-- `is_alnum` is `str.isalnum`.
use personal_ai_model.Prelude.{
  ℕ, Bool, true, not, ◌&&◌, ◌||◌, Option, none, some, List, [], ◌∷◌, ◌++◌, nat_eq, if◌then◌else◌,
  drop, length,
}
use personal_ai_model.Prelude.Text.{
  Text, codes, strip, rstrip, starts_with, is_empty, is_space, ◌==◌,
}
use personal_ai_model.Prelude.Result.{Result, ok, ◌>>◌, raise_if}
use personal_ai_model.Core.{markdown_escape}
use personal_ai_model.Health.{Health}
use personal_ai_model.Execution.{
  Execution, planned, ExecutionError, kill_switch_active, id_required, invalid_id, not_dispatched,
  no_approved_paths, append_event, save,
}
use personal_ai_model.Execution.Artifacts.{is_slash}
use personal_ai_model.Execution.Planning.{Route, Sources, plan_stages}

-- What `_orchestration_data` reads of a record; `paths` is approved_paths, or else the preview's.
pub record Orchestration : Type 0 where
  pub status : Text
  pub task : Text
  pub task_type : Text
  pub paths : List Text
  pub preview_requires_change : Bool

-- Everything else that a plan reads.
pub record Inputs : Type 0 where
  pub stopped : Bool
  pub existing : Option Execution
  pub orchestration : Orchestration
  pub health : List Health
  pub routes : Text → List Route
  pub freebuff_available : Bool
  pub stamp : Text

-- text.removeprefix(prefix)
unfoldable pub remove_prefix : Text → Text → Text
remove_prefix prefix text = if starts_with text prefix then drop (length prefix) text else text

module _ (classify : Text → Text) (is_protected : Text → Bool) (is_alnum : ℕ → Bool) where
  -- all(c.isalnum() or c == "-" for c in clean)
  unfoldable pub is_id_text : Text → Bool
  is_id_text [] = true
  is_id_text (c ∷ cs) = (is_alnum c || nat_eq c b'-') && is_id_text cs

  -- The checks of _execution_path.
  unfoldable pub is_execution_id : Text → Bool
  is_execution_id execution_id =
      let clean = markdown_escape execution_id in
      starts_with clean (codes "exec-") && is_id_text clean

  -- The approved paths that no protected pattern matches.
  unfoldable pub normalize_paths : List Text → List Text
  normalize_paths [] = []
  normalize_paths (p ∷ paths) =
      let clean = strip is_space p in
      let rest = normalize_paths paths in
      if not (is_empty clean) && not (is_protected (rstrip is_slash clean))
      then clean ∷ rest
      else rest

  -- The stored class, or that of the task's text.
  abbrev pub task_class : Orchestration → Text
  task_class o = if o.task_type == codes "routing" then classify o.task else o.task_type

  abbrev pub requires_change : Text → Orchestration → Bool
  requires_change task_type o =
      (task_type == codes "coding")
      || (task_type == codes "refactoring")
      || (task_type == codes "bugfix")
      || o.preview_requires_change

  abbrev pub sources : Inputs → Text → List Text → Sources
  sources i task_type paths = record {
    task = i.orchestration.task;
    paths = paths;
    health = i.health;
    routes = i.routes task_type;
    include_freebuff =
        i.freebuff_available && ((task_type == codes "coding") || (task_type == codes "review"));
  }

  -- The record of a new plan.
  unfoldable pub new_execution : Inputs → Text → Text → Text → List Text → Execution
  new_execution i execution_id clean_id task_type paths = save i.stamp (
      append_event i.stamp (codes "execution_planned") (codes "Planned stages") (record {
        id = execution_id;
        orchestration_id = clean_id;
        task = i.orchestration.task;
        task_type = task_type;
        status = planned;
        stages = plan_stages (sources i task_type paths);
        current_stage_index = 0;
        created_at = i.stamp;
        updated_at = i.stamp;
        events = [];
      }))

  -- A new plan, from a dispatched orchestration.
  unfoldable pub plan_new : Inputs → Text → Text → Result ExecutionError Execution
  plan_new i execution_id clean_id = do
    raise_if (not (i.orchestration.status == codes "dispatched")) not_dispatched
    let task_type = task_class i.orchestration
    let paths = normalize_paths i.orchestration.paths
    raise_if (requires_change task_type i.orchestration && is_empty paths) no_approved_paths
    ok (new_execution i execution_id clean_id task_type paths)

  abbrev pub plan_or_existing :
      Inputs → Text → Text → Option Execution → Result ExecutionError Execution
  plan_or_existing i execution_id clean_id none = plan_new i execution_id clean_id
  plan_or_existing i execution_id clean_id (some r) = ok r

  -- The record that is there if it can be read, and else a new plan.
  unfoldable pub plan_execution : Inputs → Text → Result ExecutionError Execution
  plan_execution i orchestration_id = do
    raise_if i.stopped kill_switch_active
    let clean_id = markdown_escape orchestration_id
    raise_if (is_empty clean_id) id_required
    let execution_id = codes "exec-" ++ remove_prefix (codes "orch-") clean_id
    raise_if (not (is_execution_id execution_id)) invalid_id
    plan_or_existing i execution_id clean_id i.existing
