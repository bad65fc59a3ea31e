-- ===== src/Workflow/History.antt =====
-- A workflow from its start, under any calls.
use personal_ai_model.Prelude.{
  ◌≡◌, ◌≢◌, ◌⊎◌, subst, refl, Bool, true, Option, none, some, List, [], ◌∷◌, arith, inl, inr,
  Bool-cases,
}
use personal_ai_model.Prelude.Text.{Text, is_empty, truthy, text_or}
use personal_ai_model.Prelude.Result.{raise_if, >>=-ok, ok-injective, Result, ok, err, Result-cases}
use personal_ai_model.Core.{markdown_escape}
use personal_ai_model.Policy.{Approval, consume_action_approval}
use personal_ai_model.Policy.Lifecycle.{IsSpent, consume_ok-IsSpent}
use personal_ai_model.Workflow.{
  WorkflowStage, Profile, Risk, WorkflowStatus, Workflow, WorkflowError, ReviewType, fast, standard,
  high_assurance, assess_profile, empty_request, new_workflow, start_workflow, out_of_stages,
}
use personal_ai_model.Workflow.Gates.{
  advance_workflow, record_workflow_review, verify_workflow, Run, advance_check, approval_action,
  stage_scope,
}
use personal_ai_model.Workflow.Order.{InOrder, has_passed, has_succeeded, is_fast, gates_passed}
use personal_ai_model.Workflow.Passed.{
  Good, advance_workflow-Good, record_workflow_review-Good, verify_workflow-Good,
}

-- A call, with the clock, the approval queue as it reads it, and what the verification answers to a
-- command at that time.
pub data Call : Type 0 where
  advance_call : (now evidence : Text) → Option Text → List Approval → Call
  review : Text → ReviewType → Bool → List Text → Call
  verify : (Text → Run) → (now command : Text) → Call

-- A call that raises writes nothing.
abbrev pub written : Workflow → Result WorkflowError Workflow → Workflow
written r (ok r') = r'
written r (err x) = r

module _ (sanitize : Text → Text) where
  unfoldable pub answer : Call → Workflow → Result WorkflowError Workflow
  answer (advance_call now evidence approval_id approvals) r =
      (advance_workflow sanitize now evidence approval_id r approvals).0
  answer (review now kind passed findings) r = record_workflow_review now kind passed findings r
  answer (verify run_verification now command) r = verify_workflow run_verification now command r

  unfoldable pub run : List Call → Workflow → Workflow
  unfolding answer
  run [] r = r
  run (c ∷ cs) r = run cs (written r (answer c r))

  answer-Good : (c : Call) (r : Workflow) → InOrder r → Good (answer c r)
  unfolding answer
  answer-Good (advance_call now evidence approval_id approvals) r o =
      advance_workflow-Good sanitize now evidence approval_id r approvals o
  answer-Good (review now kind passed findings) r o =
      record_workflow_review-Good now kind passed findings r o
  answer-Good (verify run_verification now command) r o =
      verify_workflow-Good run_verification now command r o

  written-InOrder :
      (r : Workflow) (a : Result WorkflowError Workflow)
      → InOrder r
      → Good a
      → InOrder (written r a)
  written-InOrder r (ok r') o g = g
  written-InOrder r (err x) o g = o

  run-InOrder : (cs : List Call) (r : Workflow) → InOrder r → InOrder (run cs r)
  unfolding run
  run-InOrder [] r o = o
  run-InOrder (c ∷ cs) r o = run-InOrder cs _ (written-InOrder r _ o (answer-Good c r o))

new-InOrder :
    (skills : List Text) (id request : Text) (p : Profile) (now : Text)
    → InOrder (new_workflow skills id request p now)
new-InOrder skills id request fast now = record {
  planned = refl;
  at_stage = refl;
  stage_position = refl;
  gated = refl;
  ends_last = refl;
}
new-InOrder skills id request standard now = record {
  planned = refl;
  at_stage = refl;
  stage_position = refl;
  gated = refl;
  ends_last = refl;
}
new-InOrder skills id request high_assurance now = record {
  planned = refl;
  at_stage = refl;
  stage_position = refl;
  gated = refl;
  ends_last = refl;
}

start-InOrder :
    (select_skills : Text → Profile → List Text) (id request : Text) (risk : Risk) (now : Text)
    (r : Workflow)
    → start_workflow select_skills id request risk now ≡ ok r
    → InOrder r
unfolding start_workflow
start-InOrder select_skills id request risk now r h =
    let (u, checked, e) =
      >>=-ok (raise_if (is_empty (markdown_escape request)) empty_request) _ h in
    subst InOrder (ok-injective e)
      (new-InOrder _ id _ (assess_profile (markdown_escape request) risk) now)

InOrder-completed :
    (r : Workflow)
    → InOrder r
    → r.status ≡ WorkflowStatus.completed
    → (has_succeeded r.verification ≡ true)
      × ((is_fast r.profile ≡ true)
          ⊎ ((has_passed r.specification_review ≡ true) × (has_passed r.quality_review ≡ true)))
InOrder-completed r o h =
    let last : r.current_stage ≡ WorkflowStage.completed = ground (arith, o.ends_last) in
    let passed : gates_passed r WorkflowStage.completed ≡ true = rw (last) at o.gated in
    elim (Bool-cases (is_fast r.profile)) [
      | inl f ↦ (ground (arith, passed), inl f)
      | inr f ↦ (ground (arith, passed), inr (ground (arith, passed), ground (arith, passed)))
    ]

module _ (sanitize : Text → Text) where
  -- A workflow that any calls have completed has succeeded in its verification, and, unless its profile
  -- is the fast one, has passed both of its reviews.
  pub run-completed :
      (select_skills : Text → Profile → List Text) (id request : Text) (risk : Risk) (now : Text)
      (cs : List Call) (r : Workflow)
      → start_workflow select_skills id request risk now ≡ ok r
      → (run sanitize cs r).status ≡ WorkflowStatus.completed
      → (has_succeeded (run sanitize cs r).verification ≡ true)
        × ((is_fast (run sanitize cs r).profile ≡ true)
            ⊎ ((has_passed (run sanitize cs r).specification_review ≡ true)
                × (has_passed (run sanitize cs r).quality_review ≡ true)))
  run-completed select_skills id request risk now cs r h =
      InOrder-completed _
        (run-InOrder sanitize cs r (start-InOrder select_skills id request risk now r h))

  Good-stages : (a : Result WorkflowError Workflow) → Good a → a ≢ err out_of_stages
  Good-stages (ok r) g = λ e. cc
  Good-stages (err x) g = λ e. g (ground arith)

  -- No call on a started workflow runs off the end of its stages, after whatever calls.
  pub answer-stages :
      (select_skills : Text → Profile → List Text) (id request : Text) (risk : Risk) (now : Text)
      (cs : List Call) (c : Call) (r : Workflow)
      → start_workflow select_skills id request risk now ≡ ok r
      → answer sanitize c (run sanitize cs r) ≢ err out_of_stages
  answer-stages select_skills id request risk now cs c r h = Good-stages _ (
      answer-Good sanitize c _
        (run-InOrder sanitize cs r (start-InOrder select_skills id request risk now r h)))

gate-check :
    (s : WorkflowStage) (action : Text) → approval_action s ≡ some action → advance_check s ≡ ok tt
gate-check s action h = ground arith

-- The approval that a gate asks for is spent by the move that it allows.
pub advance_workflow-IsSpent :
    (sanitize : Text → Text) (now evidence : Text) (approval_id : Option Text) (r r' : Workflow)
    (approvals : List Approval) (action : Text)
    → approval_action r.current_stage ≡ some action
    → (advance_workflow sanitize now evidence approval_id r approvals).0 ≡ ok r'
    → IsSpent
        (text_or approval_id [])
        ((advance_workflow sanitize now evidence approval_id r approvals).1)
unfolding advance_workflow
advance_workflow-IsSpent sanitize now evidence approval_id r r' approvals action a h =
    elim (Bool-cases (truthy approval_id)) [
      | inr e ↦
          absurd (refuses (rw (advance_workflow, gate-check r.current_stage action a, a, e) at h))
      | inl e ↦
          elim (Result-cases (
            consume_action_approval sanitize (text_or approval_id []) (stage_scope action r.id) none
              now approvals)) [
                | inl (x, c) ↦ absurd (
                    refuses
                      (rw (advance_workflow, gate-check r.current_stage action a, a, e, c) at h))
                | inr (w, c) ↦
                    rw (advance_workflow, gate-check r.current_stage action a, a, e, c)
                      (consume_ok-IsSpent sanitize _ _ none now approvals w c)
              ]
    ]
  where
    refuses : {x : WorkflowError} → err x ≡ ok r' → ⊥
    refuses e = cc
