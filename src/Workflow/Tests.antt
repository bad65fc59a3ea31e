-- ===== src/Workflow/Tests.antt =====
-- A standard workflow, from its design to its completion.
use personal_ai_model.Prelude.{◌≡◌, ◌≢◌, ◌⊎◌, refl, true, false, none, some, List, [], ◌∷◌}
use personal_ai_model.Prelude.Text.{
  Text, codes, text_discrete, to_lower, starts_with, contains, optional_discrete, strip,
  without_nul,
}
use personal_ai_model.Prelude.Result.{ok, err}
use personal_ai_model.Prelude.Keyed.{find, replace}
use personal_ai_model.Core.{markdown_escape}
use personal_ai_model.Policy.{
  Approval, approved, consume_action_approval, is_sensitive, requires_external_scope,
  validate_approval_scope, validate_identity,
}
use personal_ai_model.Policy.Lifecycle.{IsSpent}
use personal_ai_model.Workflow.{
  Profile, WorkflowStatus, Workflow, planning, standard, medium, specification, quality,
  start_workflow, new_workflow, assess_profile, any_term, out_of_stages,
}
use personal_ai_model.Workflow.Gates.{
  Run, advance_workflow, record_workflow_review, verify_workflow, moved_record, move_next,
  clean_findings, join_findings,
}
use personal_ai_model.Workflow.Order.{is_fast, has_passed, has_succeeded}
use personal_ai_model.Workflow.History.{
  Call, advance_call, review, verify, answer, run, run-completed, answer-stages,
  advance_workflow-IsSpent,
}

abbrev same : Text → Text
same t = t

abbrev skills : Text → Profile → List Text
skills request p = []

abbrev all_green : Text → Run
all_green command = record { success = true; exit_code = codes "0" }

abbrev consent : Approval
consent = record {
  id = codes "a1";
  timestamp = codes "t0";
  expires_at = none;
  user_id = none;
  account_id = none;
  connector_scope = none;
  action = codes "workflow_design_approval";
  target = codes "wf-1";
  canonical_target = codes "wf-1";
  reason = codes "design";
  idempotency_key = none;
  before_evidence = none;
  after_evidence = none;
  reservation_token = none;
  status = approved;
  approved_at = some (codes "t0");
  reserved_at = none;
  consumed_at = none;
  updated_at = none;
  error_reason = none;
}

abbrev fresh : Workflow
fresh = new_workflow [] (codes "wf-1") (codes "refactor") standard (codes "t0")

abbrev sent : List Call
sent =
    advance_call (codes "t1") (codes "design") (some (codes "a1")) (consent ∷ [])
    ∷ advance_call (codes "t2") (codes "plan") none []
    ∷ advance_call (codes "t3") (codes "code") none []
    ∷ review (codes "t4") specification false (codes "missing case" ∷ [])
    ∷ review (codes "t5") specification true []
    ∷ review (codes "t6") quality true []
    ∷ verify all_green (codes "t7") (codes "pytest")
    ∷ []

started : start_workflow skills (codes "wf-1") (codes "refactor") medium (codes "t0") ≡ ok fresh
unfolding start_workflow markdown_escape strip without_nul assess_profile any_term contains
    starts_with to_lower
started = refl

finished : (run same sent fresh).status ≡ WorkflowStatus.completed
unfolding run answer advance_workflow record_workflow_review verify_workflow move_next
    clean_findings join_findings consume_action_approval find replace text_discrete
    optional_discrete markdown_escape strip without_nul validate_approval_scope validate_identity
    is_sensitive requires_external_scope starts_with
finished = refl

run-completed_example :
    (has_succeeded (run same sent fresh).verification ≡ true)
    × ((is_fast (run same sent fresh).profile ≡ true)
        ⊎ ((has_passed (run same sent fresh).specification_review ≡ true)
            × (has_passed (run same sent fresh).quality_review ≡ true)))
run-completed_example =
    run-completed same skills (codes "wf-1") (codes "refactor") medium (codes "t0") sent fresh
      started finished

answer-stages_example :
    answer same (verify all_green (codes "t8") (codes "pytest")) (run same sent fresh)
    ≢ err out_of_stages
answer-stages_example =
    answer-stages same skills (codes "wf-1") (codes "refactor") medium (codes "t0") sent
      (verify all_green (codes "t8") (codes "pytest")) fresh started

moved_on :
    (advance_workflow same (codes "t1") (codes "design") (some (codes "a1")) fresh (consent ∷ [])).0
    ≡ ok (moved_record (codes "t1") (codes "stage_evidence") (codes "design") fresh planning)
unfolding advance_workflow move_next consume_action_approval find replace text_discrete
    optional_discrete markdown_escape strip without_nul validate_approval_scope validate_identity
    is_sensitive requires_external_scope starts_with
moved_on = refl

advance_workflow-IsSpent_example : IsSpent (codes "a1") (
    (advance_workflow same
      (codes "t1")
      (codes "design")
      (some (codes "a1"))
      fresh
      (consent ∷ [])).1)
advance_workflow-IsSpent_example =
    advance_workflow-IsSpent same (codes "t1") (codes "design") (some (codes "a1")) fresh _
      (consent ∷ []) (codes "workflow_design_approval") refl moved_on
