-- ===== src/Execution/Steps.antt =====
-- The operations of the governor as steps on one record file, and what none of them rewrites.
use personal_ai_model.Prelude.{
  ℕ, ◌≡◌, refl, ◌∙◌, ap, suc, ◌-◌, leb, length, Bool-cases, inl, inr, Option, List, [], ◌∷◌,
  get_elem?, Option-cases,
}
use personal_ai_model.Prelude.Text.{Text}
use personal_ai_model.Execution.{
  Stage, StageState, Execution, append_event, save, passed, is_review,
}
use personal_ai_model.Execution.Claim.{Env, claim_execution_stage}
use personal_ai_model.Execution.Advance.{
  advance, advance_passed, advance_failed, advance_review, advance_ordinary, move_to, next_index,
}
use personal_ai_model.Execution.Outcome.{Report, settled_record, record_execution_result}
use personal_ai_model.Execution.Dispatch.{
  Dispatch, Package, mark_execution_dispatched, revert_execution_dispatch, reconcile_record,
}
use personal_ai_model.Execution.Recovery.{recover_execution}
use personal_ai_model.Execution.Cases.{
  after, claim_cases, record_cases, dispatch_cases, revert_cases, reconcile_cases, recover_cases,
}
use personal_ai_model.Execution.Plan.{
  plan, plan-set, plan-skip_range, plan-reconcile_stages, plan-recover_stages,
  planned-release_expired, planned-settle_stage, planned-dispatch_stage,
}

-- A call with what the clock, the random source and the files give it.
pub data Call : Type 0 where
  claim : Env → Text → ℕ → Text → Call
  report : Text → Report → Call
  dispatch : Text → Text → Dispatch → Call
  revert : Text → Text → Text → Call
  reconcile : Text → (Stage → Option Package) → Call
  recover : ℕ → Text → Call

module _ (root : List Text) (resolve : Text → List Text) where
  unfoldable pub step : Call → Execution → Execution
  step (claim env stage_id lease_seconds lease) r =
      after r (claim_execution_stage env stage_id lease_seconds lease r)
  step (report now p) r = after r (record_execution_result root resolve now p r)
  step (dispatch now id d) r = after r (mark_execution_dispatched root resolve now id d r)
  step (revert now stage_id lease_id) r = revert_execution_dispatch now stage_id lease_id r
  step (reconcile now handoff) r = reconcile_record now handoff r
  step (recover now stamp) r = recover_execution now stamp r

  unfoldable pub run : List Call → Execution → Execution
  run [] r = r
  run (c ∷ cs) r = run cs (step c r)

pub plan-move_to : (now : Text) (next : ℕ) (r : Execution) → (move_to now next r).stages ≡ r.stages
unfolding move_to append_event
plan-move_to now next r = elim (Option-cases (get_elem? r.stages next)) [
  | inl e ↦ rw (move_to, e) refl
  | inr (s, e) ↦ rw (move_to, e) refl
]

plan-advance_passed :
    (now : Text) (r : Execution) → plan ((advance_passed now r).stages) ≡ plan r.stages
unfolding advance_passed
plan-advance_passed now r =
    let next = next_index r.stages r.current_stage_index in
    ap plan (plan-move_to now next _)
    ∙ plan-skip_range (suc r.current_stage_index) (next - suc r.current_stage_index) r.stages

pub plan-advance_failed : (now : Text) (r : Execution) → (advance_failed now r).stages ≡ r.stages
unfolding advance_failed append_event
plan-advance_failed now r = elim (Bool-cases (leb (length r.stages) (suc r.current_stage_index))) [
  | inl e ↦ rw (advance_failed, e) refl
  | inr e ↦ rw (advance_failed, e) refl
]

plan-advance :
    (now : Text) (s : Stage) (outcome : StageState) (r : Execution)
    → plan ((advance now s outcome r).stages) ≡ plan r.stages
unfolding advance append_event
plan-advance now s outcome r = elim (Bool-cases (is_review s.executor)) [
  | inl e ↦ rw (advance, e) (review outcome)
  | inr e ↦ rw (advance, e) (ordinary outcome)
]
  where
    review : (o : StageState) → plan ((advance_review now o r).stages) ≡ plan r.stages
    review passed = refl
    review _ = refl

    ordinary : (o : StageState) → plan ((advance_ordinary now o r).stages) ≡ plan r.stages
    ordinary passed = plan-advance_passed now r
    ordinary _ = ap plan (plan-advance_failed now r)

module _ (root : List Text) (resolve : Text → List Text) where
  -- No operation rewrites what was planned: the ids, the executors, the routes, the purposes and the
  -- writable paths of the stages, and their order.
  pub step-plan : (c : Call) (r : Execution) → plan ((step root resolve c r).stages) ≡ plan r.stages
  unfolding step append_event save settled_record
  step-plan (claim env stage_id lease_seconds lease) r =
      claim_cases (λ x. plan x.stages ≡ plan r.stages) r refl env stage_id lease_seconds lease
        λ current free e f _.
          plan-set r.stages r.current_stage_index current _ e
            (planned-release_expired env.now current free f)
  step-plan (report now p) r =
      record_cases (λ x. plan x.stages ≡ plan r.stages) r refl root resolve now p
        λ current s outcome e _ f.
          plan-advance now s outcome _
          ∙ plan-set r.stages r.current_stage_index current s e
              ((planned-settle_stage root resolve p outcome current s f).0)
  step-plan (dispatch now id d) r =
      dispatch_cases (λ x. plan x.stages ≡ plan r.stages) r refl root resolve now id d
        λ current s e f.
          plan-set r.stages r.current_stage_index current s e
            (planned-dispatch_stage root resolve now id d current s f)
  step-plan (revert now stage_id lease_id) r =
      revert_cases (λ x. plan x.stages ≡ plan r.stages) r refl now stage_id lease_id
        λ current e _. plan-set r.stages r.current_stage_index current _ e refl
  step-plan (reconcile now handoff) r =
      reconcile_cases (λ x. plan x.stages ≡ plan r.stages) r refl now handoff
        (plan-reconcile_stages handoff r.stages)
  step-plan (recover now stamp) r =
      recover_cases (λ x. plan x.stages ≡ plan r.stages) r refl now stamp
        (plan-recover_stages now r.stages)
