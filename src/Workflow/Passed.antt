-- ===== src/Workflow/Passed.antt =====
-- No call passes over a gate, and none raises Python's IndexError.
use personal_ai_model.Prelude.{
  ◌≡◌, ◌≢◌, ◌⊎◌, refl, Bool, true, false, Option, none, some, List, [], arith, inl, inr,
  if◌then◌else◌, Bool-cases,
}
use personal_ai_model.Prelude.Text.{Text, codes, truthy, text_or}
use personal_ai_model.Policy.{Approval, consume_action_approval}
use personal_ai_model.Prelude.Result.{Result, ok, err, Result-cases}
use personal_ai_model.Workflow.{
  WorkflowStage, Workflow, WorkflowError, ReviewType, specification, quality, active,
  design_approval, planning, implementation, specification_review, quality_review, verification,
  final_approval, out_of_stages,
}
use personal_ai_model.Workflow.Gates.{
  move_next, is_last, advance_workflow, record_workflow_review, verify_workflow, with_verdict,
  verified, blocked_at, Run, is_at, expected_stage, clean_findings, join_findings, review_kind,
  advance_check, advance_approved, stage_scope,
}
use personal_ai_model.Workflow.Order.{
  InOrder, Marked-InOrder, move_next-InOrder, may_leave, is_specification, is_quality,
  is_verification,
}

-- A call answers a record in order, or raises an error of the workflow: never Python's IndexError.
abbrev pub Good : Result WorkflowError Workflow → Type 0
Good (ok r) = InOrder r
Good (err x) = x ≢ out_of_stages

move_next-Good :
    (now kind detail : Text) (r : Workflow)
    → InOrder r
    → may_leave r ≡ true
    → is_last r.current_stage ≡ false
    → Good (move_next now kind detail r)
move_next-Good now kind detail r o leaves n =
    let (r', e, o') = move_next-InOrder now kind detail r o leaves n in rw (e) o'

advance_check-cases :
    (s : WorkflowStage)
    → ((x : WorkflowError) × (advance_check s ≡ err x) × (x ≢ out_of_stages))
      ⊎ ((advance_check s ≡ ok tt)
          × (is_last s ≡ false)
          × (is_specification s ≡ false)
          × (is_quality s ≡ false)
          × (is_verification s ≡ false))
advance_check-cases specification_review = inl (_, refl, λ e. cc)
advance_check-cases quality_review = inl (_, refl, λ e. cc)
advance_check-cases verification = inl (_, refl, λ e. cc)
advance_check-cases WorkflowStage.completed = inl (_, refl, λ e. cc)
advance_check-cases design_approval = inr (refl, refl, refl, refl, refl)
advance_check-cases planning = inr (refl, refl, refl, refl, refl)
advance_check-cases implementation = inr (refl, refl, refl, refl, refl)
advance_check-cases final_approval = inr (refl, refl, refl, refl, refl)

module _ (sanitize : Text → Text) where
  advance_approved-Good :
      (now evidence : Text) (approval_id : Option Text) (r : Workflow) (approvals : List Approval)
      (action : Option Text)
      → Good (move_next now (codes "stage_evidence") evidence r)
      → Good ((advance_approved sanitize now evidence approval_id r approvals action).0)
  advance_approved-Good now evidence approval_id r approvals none h = h
  advance_approved-Good now evidence approval_id r approvals (some action) h =
      elim (Bool-cases (truthy approval_id)) [
        | inr e ↦ rw (e) (λ x. cc)
        | inl e ↦
            elim (Result-cases (
              consume_action_approval sanitize (text_or approval_id []) (stage_scope action r.id)
                none now approvals)) [ inl (x, c) ↦ rw (e, c) (λ y. cc) | inr (w, c) ↦ rw (e, c) h ]
      ]

  pub advance_workflow-Good :
      (now evidence : Text) (approval_id : Option Text) (r : Workflow) (approvals : List Approval)
      → InOrder r
      → Good ((advance_workflow sanitize now evidence approval_id r approvals).0)
  unfolding advance_workflow
  advance_workflow-Good now evidence approval_id r approvals o =
      elim (advance_check-cases r.current_stage) [
        | inl (x, e, n) ↦ rw (advance_workflow, e) n
        | inr h ↦
            rw (advance_workflow, h.0)
              (advance_approved-Good now evidence approval_id r approvals _
                (move_next-Good now _ evidence r o (rw (h.2, h.3, h.4) refl) h.1))
      ]

is_at-same : (s t : WorkflowStage) → is_at s t ≡ true → s ≡ t
is_at-same s t h = ground arith

abbrev after_review :
    Text → ReviewType → Bool → List Text → Text → Workflow → Result WorkflowError Workflow
after_review now kind passed clean detail r =
    let written = with_verdict now kind passed clean r in
    if passed
    then move_next now (review_kind kind) detail (record written { status = active })
    else ok (blocked_at now written)

after_review-Good :
    (now : Text) (kind : ReviewType) (passed : Bool) (clean : List Text) (detail : Text)
    (r : Workflow)
    → InOrder r
    → r.current_stage ≡ expected_stage kind
    → Good (after_review now kind passed clean detail r)
after_review-Good now specification true clean detail r o e =
    move_next-Good now _ detail _
      (Marked-InOrder r _ o (refl, refl, refl, refl, ground (arith, e, o.gated), refl))
      (rw (e) refl) (rw (e) refl)
after_review-Good now specification false clean detail r o e =
    Marked-InOrder r _ o (refl, refl, refl, refl, ground (arith, e, o.gated), refl)
after_review-Good now quality true clean detail r o e =
    move_next-Good now _ detail _
      (Marked-InOrder r _ o (refl, refl, refl, refl, ground (arith, e, o.gated), refl))
      (rw (e) refl) (rw (e) refl)
after_review-Good now quality false clean detail r o e =
    Marked-InOrder r _ o (refl, refl, refl, refl, ground (arith, e, o.gated), refl)

pub record_workflow_review-Good :
    (now : Text) (kind : ReviewType) (passed : Bool) (findings : List Text) (r : Workflow)
    → InOrder r
    → Good (record_workflow_review now kind passed findings r)
unfolding record_workflow_review
record_workflow_review-Good now kind passed findings r o =
    elim (Bool-cases (is_at r.current_stage (expected_stage kind))) [
      | inr n ↦ rw (record_workflow_review, n) (λ x. cc)
      | inl y ↦
          rw (record_workflow_review, y)
            (after_review-Good now kind passed (clean_findings findings)
              (text_or (some (join_findings (clean_findings findings)))
                (codes "Passed with no findings."))
              r o (is_at-same _ _ y))
    ]

after_run-Good :
    (now command detail : Text) (success : Bool) (code : Text) (r : Workflow)
    → InOrder r
    → r.current_stage ≡ verification
    → Good (
        let written = verified now command (record { success = success; exit_code = code }) r in
        if success
        then move_next now (codes "fresh_verification") detail (record written { status = active })
        else ok (blocked_at now written))
after_run-Good now command detail true code r o e =
    move_next-Good now _ detail _
      (Marked-InOrder r _ o (refl, refl, refl, refl, ground (arith, e, o.gated), refl))
      (rw (e) refl) (rw (e) refl)
after_run-Good now command detail false code r o e =
    Marked-InOrder r _ o (refl, refl, refl, refl, ground (arith, e, o.gated), refl)

pub verify_workflow-Good :
    (run_verification : Text → Run) (now command : Text) (r : Workflow)
    → InOrder r
    → Good (verify_workflow run_verification now command r)
unfolding verify_workflow
verify_workflow-Good run_verification now command r o =
    elim (Bool-cases (is_at r.current_stage verification)) [
      | inr n ↦ rw (verify_workflow, n) (λ x. cc)
      | inl y ↦
          rw (verify_workflow, y)
            (after_run-Good now command _ (run_verification command).success
              (run_verification command).exit_code r o (is_at-same _ _ y))
    ]
