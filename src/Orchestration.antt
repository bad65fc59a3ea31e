-- ===== src/Orchestration.antt =====
-- src/guardian_agent/orchestration.py: an orchestration from its draft to its dispatch, and the preview of its routes.
-- A record is one orchestration's file. The listed routes, the validated paths, the ids and the clock are arguments;
-- profiles, skills and the texts for the reader are left out.
pub mod Lifecycle
pub mod Preview
mod Tests
use personal_ai_model.Prelude.{
  ℕ, Bool, true, false, not, ◌&&◌, ◌||◌, Option, none, some, List, [], ◌∷◌, ◌++◌, if◌then◌else◌,
  ltb, length, take,
}
use personal_ai_model.Prelude.Text.{
  Text, codes, ◌==◌, strip, lower, is_space, is_empty, contains, truthy, text_or,
}
use personal_ai_model.Prelude.Result.{Result, ok, err, ◌>>=◌, ◌>>◌, raise_if}
use personal_ai_model.Core.{markdown_escape}
use personal_ai_model.Workflow.{
  Profile, fast, standard, high_assurance, Risk, auto, low, medium, high, Workflow, WorkflowError,
  assess_profile, start_workflow, any_term,
}

pub data OrchestrationStatus : Type 0 where
  draft confirmed dispatched failed : OrchestrationStatus

pub record OrchestrationRecord : Type 0 where
  pub id : Text
  pub task : Text
  pub status : OrchestrationStatus
  pub task_type : Text
  pub risk_profile : Profile
  pub allowed_paths : List Text
  pub access_mode : Text
  pub workflow_id : Option Text
  pub requirement_summary : Option Text
  pub handoff_path : Option Text
  pub errors : List Text

-- The messages of `GuardianError`; `workflow_error` is one of workflow.py.
pub data OrchestrationError : Type 0 where
  empty_task task_too_long bad_limit not_draft no_paths empty_summary not_confirmed :
      OrchestrationError
  workflow_error : WorkflowError → OrchestrationError

unfoldable pub classify_task : Text → Text
unfolding any_term
classify_task task =
    let text = lower task in
    if any_term
      (codes "research" ∷ codes "investigate" ∷ codes "search" ∷ codes "find" ∷ codes "learn" ∷ [])
      text
    then codes "research"
    else if any_term (codes "plan" ∷ codes "design" ∷ codes "architecture" ∷ codes "how to" ∷ [])
        text
    then codes "planning"
    else if any_term
        (codes "documentation"
          ∷ codes "document"
          ∷ codes "readme"
          ∷ codes "doc"
          ∷ codes "explain"
          ∷ [])
        text
    then codes "documentation"
    else if any_term (codes "review" ∷ codes "audit" ∷ codes "inspect" ∷ codes "check" ∷ []) text
    then codes "review"
    else if any_term
        (codes "code"
          ∷ codes "implement"
          ∷ codes "build"
          ∷ codes "write"
          ∷ codes "create"
          ∷ codes "refactor"
          ∷ codes "fix"
          ∷ [])
        text
    then codes "coding"
    else codes "routing"

-- The names of the profiles in PROFILES.
abbrev pub profile_name : Profile → Text
profile_name fast = codes "fast"
profile_name standard = codes "standard"
profile_name high_assurance = codes "high_assurance"

unfoldable pub profile_to_risk : Text → Risk
unfolding strip contains
profile_to_risk name =
    let p = strip is_space (lower name) in
    if contains p (codes "high") || contains p (codes "critical")
    then high
    else if contains p (codes "medium") || contains p (codes "elevated")
    then medium
    else low

-- (access_mode == "write") or (task_type in ("coding", "refactoring", "bugfix"))
abbrev pub is_write_mode : Text → Text → Bool
is_write_mode access_mode task_type =
    access_mode == codes "write"
    || task_type == codes "coding"
    || task_type == codes "refactoring"
    || task_type == codes "bugfix"

abbrev pub start_errors : Bool → List Text
start_errors true = codes "Writable task requires explicit approved paths before confirmation." ∷ []
start_errors false = []

abbrev pub new_orchestration : Text → Text → List Text → Text → OrchestrationRecord
new_orchestration id task paths access_mode = record {
  id = id;
  task = task;
  status = draft;
  task_type = classify_task task;
  risk_profile = assess_profile task auto;
  allowed_paths = paths;
  access_mode = access_mode;
  workflow_id = none;
  requirement_summary = none;
  handoff_path = none;
  errors = start_errors (is_write_mode access_mode (classify_task task) && is_empty paths);
}

-- `paths` are the approved paths, validated and normalised.
unfoldable pub orchestrate_start :
    Text → Text → ℕ → List Text → Text → Result OrchestrationError OrchestrationRecord
unfolding markdown_escape
orchestrate_start id task limit paths access_mode = do
  let clean_task = markdown_escape task
  raise_if (is_empty clean_task) empty_task
  raise_if (ltb 2000 (length clean_task)) task_too_long
  raise_if (ltb limit 1 || ltb 5 limit) bad_limit
  ok (new_orchestration id clean_task paths access_mode)

abbrev pub is_draft : OrchestrationStatus → Bool
is_draft draft = true
is_draft _ = false

abbrev pub is_confirmed : OrchestrationStatus → Bool
is_confirmed confirmed = true
is_confirmed _ = false

abbrev pub is_sent : OrchestrationStatus → Bool
is_sent dispatched = true
is_sent _ = false

abbrev pub workflow_or : Result WorkflowError Workflow → Result OrchestrationError Workflow
workflow_or (ok w) = ok w
workflow_or (err x) = err (workflow_error x)

abbrev pub as_confirmed : Text → Workflow → OrchestrationRecord → OrchestrationRecord
as_confirmed summary w r = record r {
  status = confirmed;
  workflow_id = some w.id;
  requirement_summary = some summary;
}

module _ (select_skills : Text → Profile → List Text) where
  -- The record, and the workflow that is started for it.
  unfoldable pub orchestrate_confirm :
      Option Text
      → Text
      → Text
      → OrchestrationRecord
      → Result OrchestrationError (OrchestrationRecord × Workflow)
  unfolding markdown_escape
  orchestrate_confirm summary workflow_id now r = do
    raise_if (not (is_draft r.status)) not_draft
    raise_if (is_write_mode r.access_mode r.task_type && is_empty r.allowed_paths) no_paths
    let clean_summary = markdown_escape (text_or summary r.task)
    raise_if (is_empty clean_summary) empty_summary
    w ← workflow_or (
        start_workflow select_skills workflow_id r.task
          (profile_to_risk (profile_name r.risk_profile)) now)
    ok (as_confirmed clean_summary w r, w)

abbrev pub as_sent : Text → OrchestrationRecord → OrchestrationRecord
as_sent path r = record r { status = dispatched; handoff_path = some path }

-- A record that is dispatched already is answered as it is.
unfoldable pub orchestrate_dispatch :
    Text → OrchestrationRecord → Result OrchestrationError OrchestrationRecord
orchestrate_dispatch path r =
    if is_sent r.status && truthy r.handoff_path
    then ok r
    else do raise_if (not (is_confirmed r.status)) not_confirmed; ok (as_sent path r)
