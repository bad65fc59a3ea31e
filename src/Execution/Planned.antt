-- ===== src/Execution/Planned.antt =====
-- What a plan of `plan_execution` looks like, and what becomes of it.
use personal_ai_model.Prelude.{
  ℕ, ◌-◌, ◌≤◌, ◌≡◌, refl, sym, subst, ap, ◌∙◌, inl, inr, true, Bool, none, some, List, [], ◌∷◌,
  ◌++◌, arith, get_elem?, length, Bool-cases, length-append, ltb,
}
use personal_ai_model.Prelude.Text.{codes, to_lower, contains, starts_with, Text}
use personal_ai_model.Prelude.Result.{ok}
use personal_ai_model.Core.{markdown_escape}
use personal_ai_model.Execution.{
  Stage, Execution, completed, planned, is_final_review, append_event, save,
}
use personal_ai_model.Execution.Planning.{
  Route, Sources, append_below, add_best, final_stage, finals, ordinary_max, add_final, add_review,
  add_best, append_below, final_stage, plan_stages, ordinary_stages,
}
use personal_ai_model.Execution.PlanExecution.{
  Inputs, plan_execution, plan_new, new_execution, sources, normalize_paths, task_class,
  remove_prefix,
}
use personal_ai_model.Execution.Plan.{plan}
use personal_ai_model.Execution.Steps.{Call, run}
use personal_ai_model.Execution.Review.{IsReviewLast, PassedReview, run-IsReviewed}
use personal_ai_model.Execution.Fresh.{
  FreshUpTo, ordinary-FreshUpTo, plan_stages-FreshUpTo, plan_stages-IsReviewLast,
}

get-after :
    (xs : List Stage) (a : Stage) (ys : List Stage)
    → get_elem? ((xs ++ a ∷ []) ++ ys) (length xs) ≡ some a
get-after [] a ys = refl
get-after (x ∷ xs) a ys = get-after xs a ys

get-before_last :
    (xs : List Stage) (a b : Stage)
    → get_elem? ((xs ++ a ∷ []) ++ b ∷ []) (length ((xs ++ a ∷ []) ++ b ∷ []) - 2) ≡ some a
get-before_last xs a b =
    ap (get_elem? ((xs ++ a ∷ []) ++ b ∷ []))
      (omega (arith, length-append (xs ++ a ∷ []) (b ∷ []), length-append xs (a ∷ [])))
    ∙ get-after xs a (b ∷ [])

final_stage-is_final_review :
    (q : Sources) (stages : List Stage) (r : Route)
    → is_final_review (final_stage q stages r) ≡ true
unfolding is_final_review to_lower contains starts_with
final_stage-is_final_review q stages r = refl

module _ (q : Sources) where
  add_review-final :
      (ordinary : List Stage) (best : Route) (rest : List Route)
      → length ordinary ≤ 4
      → (s : Stage) × (get_elem?
            (add_review q (add_best 5 (best ∷ rest) (final_stage q) ordinary))
            (length (add_review q (add_best 5 (best ∷ rest) (final_stage q) ordinary)) - 2)
          ≡ some s)
        × (is_final_review s ≡ true)
  unfolding add_review add_best append_below
  add_review-final ordinary best rest le = elim (Bool-cases (ltb (length ordinary) 5)) [
    | inr e ↦ ground (arith, e, le)
    | inl e ↦
        rw (append_below, e)
          (
            final_stage q ordinary best,
            get-before_last ordinary (final_stage q ordinary best) _,
            final_stage-is_final_review q ordinary best,
          )
  ]

  -- If there is a healthy route for it, a final review stands before the primary review, however
  -- many ordinary routes there are.
  pub plan_stages-final :
      (best : Route) (rest : List Route)
      → finals q ≡ best ∷ rest
      → (s : Stage) × (get_elem? (plan_stages q) (length (plan_stages q) - 2) ≡ some s)
        × (is_final_review s ≡ true)
  unfolding plan_stages add_final
  plan_stages-final best rest e =
      subst
        (λ l.
          (s : Stage) × (get_elem?
              (add_review q (add_best 5 l (final_stage q) (ordinary_stages q (ordinary_max l))))
              (length
                  (add_review q (add_best 5 l (final_stage q) (ordinary_stages q (ordinary_max l))))
                - 2)
            ≡ some s)
          × (is_final_review s ≡ true))
        (sym e) (add_review-final (ordinary_stages q 4) best rest ((ordinary-FreshUpTo q 4).1))

module _ (classify : Text → Text) (is_protected : Text → Bool) (is_alnum : ℕ → Bool) where
  plan_new-made :
      (i : Inputs) (execution_id clean_id : Text) (r : Execution)
      → plan_new classify is_protected is_alnum i execution_id clean_id ≡ ok r
      → (task_type : Text) × (paths : List Text) × (r
          ≡ new_execution classify is_protected is_alnum i execution_id clean_id task_type paths)
  unfolding plan_new
  plan_new-made i execution_id clean_id r e = (
    task_class classify is_protected is_alnum i.orchestration,
    normalize_paths classify is_protected is_alnum i.orchestration.paths,
    ground (arith, e),
  )

  plan_execution-made :
      (i : Inputs) (orchestration_id : Text) (r : Execution)
      → i.existing ≡ none
      → plan_execution classify is_protected is_alnum i orchestration_id ≡ ok r
      → (execution_id : Text) × (clean_id : Text) × (task_type : Text) × (paths : List Text) × (r
          ≡ new_execution classify is_protected is_alnum i execution_id clean_id task_type paths)
  unfolding plan_execution
  plan_execution-made i orchestration_id r new e =
      let clean_id = markdown_escape orchestration_id in
      let execution_id = codes "exec-" ++ remove_prefix (codes "orch-") clean_id in
      let made = plan_new-made i execution_id clean_id r (ground (arith, e, new)) in
      (execution_id, clean_id, made.0, made.1, made.2)

  -- A new plan stands before its first stage, has at most six fresh stages, and ends with the primary
  -- review.
  pub plan_execution-planned :
      (i : Inputs) (orchestration_id : Text) (r : Execution)
      → i.existing ≡ none
      → plan_execution classify is_protected is_alnum i orchestration_id ≡ ok r
      → (r.status ≡ planned)
        × (r.current_stage_index ≡ 0)
        × FreshUpTo 6 r.stages
        × IsReviewLast (plan r.stages)
  unfolding new_execution append_event save
  plan_execution-planned i orchestration_id r new e =
      let made = plan_execution-made i orchestration_id r new e in
      let q = sources classify is_protected is_alnum i made.2 made.3 in
      subst
        (λ x.
          (x.status ≡ planned)
          × (x.current_stage_index ≡ 0)
          × FreshUpTo 6 x.stages
          × IsReviewLast (plan x.stages))
        (sym made.4) (refl, refl, plan_stages-FreshUpTo q, plan_stages-IsReviewLast q)

  -- From a new plan, no sequence of operations reaches the status completed unless the record stands
  -- at a primary review that has passed.
  pub plan_execution-reviewed :
      (i : Inputs) (orchestration_id : Text) (r : Execution) (root : List Text)
      (resolve : Text → List Text) (cs : List Call)
      → i.existing ≡ none
      → plan_execution classify is_protected is_alnum i orchestration_id ≡ ok r
      → (run root resolve cs r).status ≡ completed
      → PassedReview (run root resolve cs r)
  plan_execution-reviewed i orchestration_id r root resolve cs new e =
      let start = plan_execution-planned i orchestration_id r new e in
      run-IsReviewed root resolve cs r start.3 (λ h. ground (arith, start.0, h))
