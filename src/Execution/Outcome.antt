-- ===== src/Execution/Outcome.antt =====
-- `record_execution_result` of execution.py: the checks, the artifacts, and the record that is saved.
use personal_ai_model.Prelude.{
  Bool, not, ◌&&◌, ◌||◌, Option, none, some, List, [], ◌∷◌, ◌++◌, get_elem?, set, take,
  if◌then◌else◌,
}
use personal_ai_model.Prelude.Text.{Text, codes, ◌==◌, ◌==?◌, truthy, is_empty}
use personal_ai_model.Prelude.Result.{Result, ok, ◌>>=◌, ◌>>◌, raise_if}
use personal_ai_model.Core.{markdown_escape}
use personal_ai_model.Execution.{
  Stage, StageState, Execution, ExecutionError, no_stage, not_current, invalid_outcome,
  dispatch_mismatch, target_mismatch, token_mismatch, lease_mismatch, not_claimed, no_evidence,
  passed, skipped, is_claimed, is_dispatched, is_settled, is_unbound, or_raise, append_event,
  about_stage, save, max_evidence_length,
}
use personal_ai_model.Execution.Advance.{advance}
use personal_ai_model.Execution.Artifacts.{one_of, safe_artifact_path, validate_artifacts}

-- "passed", "failed" or "skipped"
unfoldable pub outcome_named : Text → Option StageState
outcome_named s =
    if s == codes "passed"
    then some passed
    else if s == codes "failed"
    then some StageState.failed
    else if s == codes "skipped"
    then some skipped
    else none

-- The arguments of a report.
pub record Report : Type 0 where
  pub stage_id : Text
  pub lease_id : Text
  pub outcome : Text
  pub evidence : Text
  pub artifact_path : Option Text
  pub artifacts_changed : List Text
  pub dispatch_id : Option Text
  pub adapter_target : Option Text
  pub adapter_token : Option Text

-- The dispatch, target and token to which the completed stage is bound.
unfoldable pub check_replay : Report → Stage → Result ExecutionError (Unit {0})
check_replay p s = do
  raise_if (truthy s.dispatch_id && not (s.dispatch_id ==? p.dispatch_id)) dispatch_mismatch
  raise_if (is_unbound s.adapter_target p.adapter_target) target_mismatch
  raise_if (is_unbound s.adapter_token p.adapter_token) token_mismatch

-- past_stage.id == stage_id and past_stage.lease_id == lease_id and the stage is over
unfoldable pub is_replay : Report → Stage → Bool
is_replay p s = (s.id == p.stage_id) && (s.lease_id ==? some p.lease_id) && is_settled s.state

-- The first stage that the report was already recorded for.
unfoldable pub find_replay : Report → List Stage → Option Stage
find_replay p [] = none
find_replay p (s ∷ stages) = if is_replay p s then some s else find_replay p stages

-- The lease, the dispatch and the adapter of the current stage.
unfoldable pub check_current : Report → Stage → Result ExecutionError (Unit {0})
check_current p s = do
  raise_if (not (s.id == p.stage_id)) not_current
  raise_if (not (s.lease_id ==? some p.lease_id)) lease_mismatch
  raise_if
      (is_dispatched s.state
        && (not (truthy p.dispatch_id) || not (s.dispatch_id ==? p.dispatch_id)))
      dispatch_mismatch
  raise_if (not (is_dispatched s.state) && not (is_claimed s.state)) not_claimed
  raise_if (is_unbound s.adapter_target p.adapter_target) target_mismatch
  raise_if (is_unbound s.adapter_token p.adapter_token) token_mismatch

abbrev pub clean_evidence : Text → Text
clean_evidence evidence = take max_evidence_length (markdown_escape evidence)

-- all_artifacts: the changed ones, and the artifact itself if it is not among them.
abbrev pub all_artifacts : List Text → Option Text → List Text
all_artifacts changed none = changed
all_artifacts changed (some path) =
    if not (is_empty path) && not (one_of path changed) then changed ++ path ∷ [] else changed

abbrev pub artifact_of :
    List Text → (Text → List Text) → Report → Stage → Result ExecutionError (Option Text)
artifact_of root resolve p s =
    if truthy p.artifact_path
    then safe_artifact_path root resolve p.artifact_path
    else ok s.artifact_path

-- The stage with its result, or the refusal of its evidence or of its artifacts.
unfoldable pub settle_stage :
    List Text → (Text → List Text) → Report → StageState → Stage → Result ExecutionError Stage
settle_stage root resolve p outcome s = do
  raise_if (is_empty (clean_evidence p.evidence)) no_evidence
  path ← artifact_of root resolve p s
  changed ← validate_artifacts root resolve s.allowed_paths (all_artifacts p.artifacts_changed path)
  ok (record s {
    state = outcome;
    evidence = clean_evidence p.evidence;
    artifact_path = path;
    artifacts_changed = changed;
  })

abbrev outcome_text : StageState → Text
outcome_text passed = codes "stage_passed"
outcome_text StageState.failed = codes "stage_failed"
outcome_text _ = codes "stage_skipped"

-- The record with the result of its current stage, in the order in which the code writes it.
unfoldable pub settled_record : Text → Stage → StageState → Execution → Execution
settled_record now s outcome r =
    let written = record r { stages = set r.stages r.current_stage_index s } in
    let detail = about_stage s (codes ": " ++ take 200 s.evidence) in
    save now (advance now s outcome (append_event now (outcome_text outcome) detail written))

-- A result for the current stage.
unfoldable pub record_current :
    List Text
    → (Text → List Text)
    → Text
    → Report
    → StageState
    → Execution
    → Result ExecutionError (StageState × Execution)
record_current root resolve now p outcome r = do
  current ← or_raise (get_elem? r.stages r.current_stage_index) no_stage
  check_current p current
  s ← settle_stage root resolve p outcome current
  ok (outcome, settled_record now s outcome r)

-- A replayed report is answered from the stage it settled, and changes nothing.
abbrev pub replay : Report → Stage → Execution → Result ExecutionError (StageState × Execution)
replay p s r = do check_replay p s; ok (s.state, r)

-- The outcome that is answered, and the record.
unfoldable pub record_execution_result :
    List Text
    → (Text → List Text)
    → Text
    → Report
    → Execution
    → Result ExecutionError (StageState × Execution)
record_execution_result root resolve now p r = do
  outcome ← or_raise (outcome_named p.outcome) invalid_outcome
  elim (find_replay p r.stages) [
    | none ↦ record_current root resolve now p outcome r
    | some s ↦ replay p s r
  ]
