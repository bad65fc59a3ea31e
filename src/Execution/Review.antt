-- ===== src/Execution/Review.antt =====
-- An execution completes only through its primary review.
use personal_ai_model.Prelude.{
  ◌⊎◌, ℕ, zero, suc, ◌-◌, ◌<◌, ◌≤◌, ◌≡◌, refl, sym, subst, ap, inl, inr, true, false, some, List,
  [], ◌∷◌, arith, get_elem?, length, leb, Bool-cases, Option-cases, get-set-same, get-none,
}
use personal_ai_model.Prelude.Text.{Text}
use personal_ai_model.Execution.{
  Stage, StageState, RecordStatus, Execution, completed, passed, primary_review, is_review,
  append_event, save,
}
use personal_ai_model.Execution.Advance.{
  terminal_from, terminal_index, next_index, skip_range, move_to, advance, advance_passed,
  advance_failed, advance_review, advance_ordinary,
}
use personal_ai_model.Execution.Outcome.{settled_record}
use personal_ai_model.Execution.Recovery.{Place, recover_place, place_of}
use personal_ai_model.Execution.Completed.{step-StandsAt}
use personal_ai_model.Execution.Cases.{
  claim_cases, record_cases, dispatch_cases, revert_cases, reconcile_cases, recover_cases,
}
use personal_ai_model.Execution.Plan.{Planned, plan, planned, planned-settle_stage, plan-set}
use personal_ai_model.Execution.Steps.{
  Call, claim, report, dispatch, revert, reconcile, recover, step, run, step-plan,
}

-- "primary-review is always last": the last stage, if there is any.
unfoldable pub IsReviewLast : List Planned → Type 0
IsReviewLast [] = Unit
IsReviewLast (p ∷ []) = p.executor ≡ primary_review
IsReviewLast (p ∷ (q ∷ ps)) = IsReviewLast (q ∷ ps)

-- The stage at which the record stands is a primary review that has passed.
abbrev pub PassedReview : Execution → Type 0
PassedReview r =
    (s : Stage) × (get_elem? r.stages r.current_stage_index ≡ some s)
    × (s.executor ≡ primary_review)
    × (s.state ≡ passed)

abbrev pub IsReviewed : Execution → Type 0
IsReviewed r = r.status ≡ completed → PassedReview r

not_last :
    (stages : List Stage) (i : ℕ) (s : Stage)
    → IsReviewLast (plan stages)
    → get_elem? stages i ≡ some s
    → is_review s.executor ≡ false
    → suc i < length stages
unfolding IsReviewLast
not_last [] i s h e f = cc
not_last (x ∷ []) zero s h e f = ground arith
not_last (x ∷ []) (suc i) s h e f = cc
not_last (x ∷ (y ∷ stages)) zero s h e f = omega arith
not_last (x ∷ (y ∷ stages)) (suc i) s h e f = omega (arith, not_last (y ∷ stages) i s h e f)

terminal_from-le :
    (stages : List Stage) (idx i : ℕ)
    → i ≤ length stages - 1
    → terminal_from stages idx i ≤ length stages - 1
unfolding terminal_from
terminal_from-le stages idx zero h = omega arith
terminal_from-le stages idx (suc i) h = ground (arith, terminal_from-le stages idx i (omega arith))

-- The stage that follows one that is not the last is a stage of the record.
next_index-lt :
    (stages : List Stage) (idx : ℕ)
    → suc idx < length stages
    → next_index stages idx < length stages
unfolding next_index terminal_index
next_index-lt stages idx h =
    omega (arith, terminal_from-le stages idx (length stages - 2) (omega arith))

length-skip_range :
    (lo n : ℕ) (stages : List Stage) → length (skip_range lo n stages) ≡ length stages
unfolding skip_range
length-skip_range lo n [] = refl
length-skip_range (suc lo) n (s ∷ stages) = ap suc (length-skip_range lo n stages)
length-skip_range zero zero (s ∷ stages) = refl
length-skip_range zero (suc n) (s ∷ stages) = ap suc (length-skip_range zero n stages)

move_to-status :
    (now : Text) (next : ℕ) (r : Execution)
    → next < length r.stages
    → ¬ ((move_to now next r).status ≡ completed)
unfolding move_to append_event
move_to-status now next r h e = elim (Option-cases (get_elem? r.stages next)) [
  | inl f ↦ omega (arith, get-none r.stages next f)
  | inr (s, f) ↦ ground arith
]

advance_passed-status :
    (now : Text) (r : Execution)
    → suc r.current_stage_index < length r.stages
    → ¬ ((advance_passed now r).status ≡ completed)
unfolding advance_passed
advance_passed-status now r h =
    let next = next_index r.stages r.current_stage_index in
    move_to-status now next _ (
      omega (
        arith,
        next_index-lt r.stages r.current_stage_index h,
        length-skip_range (suc r.current_stage_index) (next - suc r.current_stage_index) r.stages,
      ))

advance_failed-status : (now : Text) (r : Execution) → ¬ ((advance_failed now r).status ≡ completed)
unfolding advance_failed append_event
advance_failed-status now r e =
    elim (Bool-cases (leb (length r.stages) (suc r.current_stage_index))) [
      | inl f ↦ ground arith
      | inr f ↦ ground arith
    ]

-- A result completes the record only if it is a passed one of the primary review.
advance-IsReviewed :
    (now : Text) (s : Stage) (outcome : StageState) (r : Execution)
    → IsReviewLast (plan r.stages)
    → get_elem? r.stages r.current_stage_index ≡ some s
    → s.state ≡ outcome
    → IsReviewed (advance now s outcome r)
unfolding advance append_event
advance-IsReviewed now s outcome r last e g = elim (Bool-cases (is_review s.executor)) [
  | inl f ↦ rw (advance, f) (review f outcome g)
  | inr f ↦ rw (advance, f) (ordinary f outcome)
]
  where
    review :
        (is_review s.executor ≡ true)
        → (o : StageState) → s.state ≡ o
        → IsReviewed (advance_review now o r)
    review f passed g h = (s, e, ground arith, g)
    review f _ g h = ground arith

    ordinary :
        (is_review s.executor ≡ false) → (o : StageState) → IsReviewed (advance_ordinary now o r)
    ordinary f passed h =
        absurd (advance_passed-status now r (not_last r.stages r.current_stage_index s last e f) h)
    ordinary f _ h = absurd (advance_failed-status now r h)

settled_record-IsReviewed :
    (now : Text) (current s : Stage) (outcome : StageState) (r : Execution)
    → IsReviewLast (plan r.stages)
    → get_elem? r.stages r.current_stage_index ≡ some current
    → planned s ≡ planned current
    → s.state ≡ outcome
    → IsReviewed (settled_record now s outcome r)
unfolding settled_record append_event save
settled_record-IsReviewed now current s outcome r last e f g =
    advance-IsReviewed now s outcome _
      (subst IsReviewLast (sym (plan-set r.stages r.current_stage_index current s e f)) last)
      (get-set-same r.stages r.current_stage_index s current e) g

completed_cases : (s : RecordStatus) → (s ≡ completed) ⊎ ¬ (s ≡ completed)
completed_cases s = ground arith

recover_place-status :
    (now n k : ℕ) (stages : List Stage) (p : Place)
    → ¬ (p.status ≡ completed)
    → ¬ ((recover_place now n k stages p).status ≡ completed)
unfolding recover_place
recover_place-status now n k [] p h = h
recover_place-status now n k (x ∷ stages) p h =
    recover_place-status now n (suc k) stages _ (ground arith)

module _ (root : List Text) (resolve : Text → List Text) where
  -- A call on a record that is not completed completes it only with a passed review.
  fresh-IsReviewed :
      (c : Call) (r : Execution)
      → IsReviewLast (plan r.stages)
      → ¬ (r.status ≡ completed)
      → IsReviewed (step root resolve c r)
  unfolding step append_event save
  fresh-IsReviewed (claim env stage_id lease_seconds lease) r last h =
      claim_cases IsReviewed r (λ e. absurd (h e)) env stage_id lease_seconds lease
        λ current free e f g i. ground arith
  fresh-IsReviewed (report now p) r last h =
      record_cases IsReviewed r (λ e. absurd (h e)) root resolve now p
        λ current s outcome e _ f.
          let kept = planned-settle_stage root resolve p outcome current s f in
          settled_record-IsReviewed now current s outcome r last e kept.0 kept.1
  fresh-IsReviewed (dispatch now id d) r last h =
      dispatch_cases IsReviewed r (λ e. absurd (h e)) root resolve now id d
        λ current s e f g. ground arith
  fresh-IsReviewed (revert now stage_id lease_id) r last h =
      revert_cases IsReviewed r (λ e. absurd (h e)) now stage_id lease_id
        λ current e f g. absurd (h g)
  fresh-IsReviewed (reconcile now handoff) r last h =
      reconcile_cases IsReviewed r (λ e. absurd (h e)) now handoff λ g. absurd (h g)
  fresh-IsReviewed (recover now stamp) r last h =
      recover_cases IsReviewed r (λ e. absurd (h e)) now stamp
        λ g. absurd (recover_place-status now (length r.stages) 0 r.stages (place_of r) h g)

  step-IsReviewed :
      (c : Call) (r : Execution)
      → IsReviewLast (plan r.stages)
      → IsReviewed r
      → IsReviewed (step root resolve c r)
  step-IsReviewed c r last reviewed = elim (completed_cases r.status) [
    | inl h ↦
        let review = reviewed h in
        let s = review.0 in
        let at = step-StandsAt root resolve s review.3 c r (h, review.1) in
        λ _. (s, at.1, review.2, review.3)
    | inr h ↦ fresh-IsReviewed c r last h
  ]

  -- In a record whose last stage is the primary review, no sequence of operations reaches the status
  -- completed unless the record stands at a primary review that has passed.
  pub run-IsReviewed :
      (cs : List Call) (r : Execution)
      → IsReviewLast (plan r.stages)
      → IsReviewed r
      → IsReviewed (run root resolve cs r)
  unfolding run
  run-IsReviewed [] r last reviewed = reviewed
  run-IsReviewed (c ∷ cs) r last reviewed =
      run-IsReviewed cs (step root resolve c r)
        (subst IsReviewLast (sym (step-plan root resolve c r)) last)
        (step-IsReviewed c r last reviewed)
