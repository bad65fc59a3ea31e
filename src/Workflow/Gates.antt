-- ===== src/Workflow/Gates.antt =====
-- The calls that move a workflow on: `advance_workflow`, `record_workflow_review`, `verify_workflow`.
use personal_ai_model.Prelude.{
  suc, Bool, true, false, not, Option, none, some, List, [], ◌∷◌, ◌++◌, if◌then◌else◌, get_elem?,
}
use personal_ai_model.Prelude.Text.{Text, codes, is_empty, truthy, text_or}
use personal_ai_model.Prelude.Result.{Result, ok, err, ◌>>◌, raise_if}
use personal_ai_model.Core.{markdown_escape}
use personal_ai_model.Policy.{Approval, Scope, Written, consume_action_approval}
use personal_ai_model.Workflow.{
  WorkflowStage, WorkflowStatus, Evidence, ReviewType, Review, Workflow, WorkflowError,
  design_approval, specification_review, quality_review, verification, final_approval, active,
  blocked, specification, quality, review_required, verify_required, is_completed,
  approval_required, wrong_stage, out_of_stages, refused,
}

abbrev pub is_last : WorkflowStage → Bool
is_last WorkflowStage.completed = true
is_last _ = false

abbrev pub evidence_of : Text → Text → Text → WorkflowStage → Evidence
evidence_of now kind detail stage = record {
  timestamp = now;
  stage = stage;
  kind = kind;
  detail = markdown_escape detail;
}

abbrev pub moved_record : Text → Text → Text → Workflow → WorkflowStage → Workflow
moved_record now kind detail r next = record r {
  evidence = r.evidence ++ evidence_of now kind detail r.current_stage ∷ [];
  stage_index = suc r.stage_index;
  current_stage = next;
  status = if is_last next then WorkflowStatus.completed else r.status;
  completed_at = if is_last next then some now else r.completed_at;
  updated_at = now;
}

abbrev pub move_found :
    Text → Text → Text → Workflow → Option WorkflowStage → Result WorkflowError Workflow
move_found now kind detail r none = err out_of_stages
move_found now kind detail r (some next) = ok (moved_record now kind detail r next)

unfoldable pub move_next : Text → Text → Text → Workflow → Result WorkflowError Workflow
move_next now kind detail r = move_found now kind detail r (get_elem? r.stages (suc r.stage_index))

-- The action of the approval that a stage asks for.
abbrev pub approval_action : WorkflowStage → Option Text
approval_action design_approval = some (codes "workflow_design_approval")
approval_action final_approval = some (codes "workflow_final_approval")
approval_action _ = none

abbrev pub advance_check : WorkflowStage → Result WorkflowError (Unit {0})
advance_check specification_review = err review_required
advance_check quality_review = err review_required
advance_check verification = err verify_required
advance_check WorkflowStage.completed = err is_completed
advance_check _ = ok tt

abbrev pub stage_scope : Text → Text → Scope
stage_scope action workflow_id = record {
  action = action;
  target = workflow_id;
  user_id = none;
  account_id = none;
  connector_scope = none;
  idempotency_key = none;
  reservation_token = none;
  require_token = false;
}

-- What a call answers, and the queue of approvals that it leaves.
abbrev pub Advanced : Type 0
Advanced = Result WorkflowError Workflow × List Approval

module _ (sanitize : Text → Text) where
  abbrev pub consumed_or : Text → Text → Workflow → List Approval → Written → Advanced
  consumed_or now detail r approvals (err x) = (err (refused x), approvals)
  consumed_or now detail r approvals (ok w) = (move_next now (codes "stage_evidence") detail r, w.1)

  abbrev pub advance_approved :
      Text → Text → Option Text → Workflow → List Approval → Option Text → Advanced
  advance_approved now detail approval_id r approvals none =
      (move_next now (codes "stage_evidence") detail r, approvals)
  advance_approved now detail approval_id r approvals (some action) =
      if truthy approval_id
      then consumed_or now detail r approvals (
          consume_action_approval sanitize (text_or approval_id []) (stage_scope action r.id) none
            now approvals)
      else (err approval_required, approvals)

  unfoldable pub advance_workflow : Text → Text → Option Text → Workflow → List Approval → Advanced
  advance_workflow now evidence approval_id r approvals = elim (advance_check r.current_stage) [
    | err x ↦ (err x, approvals)
    | ok passed ↦
        advance_approved now evidence approval_id r approvals (approval_action r.current_stage)
  ]

abbrev pub expected_stage : ReviewType → WorkflowStage
expected_stage specification = specification_review
expected_stage quality = quality_review

abbrev pub is_at : WorkflowStage → WorkflowStage → Bool
is_at specification_review specification_review = true
is_at quality_review quality_review = true
is_at verification verification = true
is_at _ _ = false

-- [markdown_escape(item) for item in findings if markdown_escape(item)]
unfoldable pub clean_findings : List Text → List Text
unfolding markdown_escape
clean_findings [] = []
clean_findings (item ∷ items) =
    let rest = clean_findings items in
    if is_empty (markdown_escape item) then rest else markdown_escape item ∷ rest

-- "; ".join(findings)
unfoldable pub join_findings : List Text → Text
join_findings [] = []
join_findings (item ∷ []) = item
join_findings (item ∷ (next ∷ items)) = item ++ (codes "; " ++ join_findings (next ∷ items))

abbrev pub review_kind : ReviewType → Text
review_kind specification = codes "specification_review"
review_kind quality = codes "quality_review"

abbrev pub with_review : ReviewType → Review → Workflow → Workflow
with_review specification v r = record r { specification_review = some v }
with_review quality v r = record r { quality_review = some v }

abbrev pub blocked_at : Text → Workflow → Workflow
blocked_at now r = record r { status = blocked; updated_at = now }

abbrev pub with_verdict : Text → ReviewType → Bool → List Text → Workflow → Workflow
with_verdict now kind passed findings r =
    with_review kind (record { passed = passed; findings = findings; reviewed_at = now }) r

unfoldable pub record_workflow_review :
    Text → ReviewType → Bool → List Text → Workflow → Result WorkflowError Workflow
record_workflow_review now review_type passed findings r = do
  raise_if (not (is_at r.current_stage (expected_stage review_type))) wrong_stage
  let clean = clean_findings findings
  let written = with_verdict now review_type passed clean r
  if passed
      then move_next now (review_kind review_type)
          (text_or (some (join_findings clean)) (codes "Passed with no findings."))
          (record written { status = active })
      else ok (blocked_at now written)

-- What `run_verification` of coding.py answers.
pub record Run : Type 0 where
  pub success : Bool
  pub exit_code : Text

abbrev pub verified : Text → Text → Run → Workflow → Workflow
verified now command result r = record r {
  verification = some (record {
    success = result.success;
    exit_code = result.exit_code;
    command = command;
    verified_at = now;
  });
}

unfoldable pub verify_workflow :
    (Text → Run) → Text → Text → Workflow → Result WorkflowError Workflow
verify_workflow run_verification now command r = do
  raise_if (not (is_at r.current_stage verification)) wrong_stage
  let result = run_verification command
  let written = verified now command result r
  if result.success
      then move_next now (codes "fresh_verification")
          (codes "Command: " ++ (command ++ (codes "; exit code: " ++ result.exit_code)))
          (record written { status = active })
      else ok (blocked_at now written)
