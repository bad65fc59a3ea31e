-- ===== src/Execution/Fresh.antt =====
-- The stages that `plan_execution` builds.
use personal_ai_model.Prelude.{
  ℕ, suc, ◌≤◌, ◌<◌, ◌≡◌, refl, inl, inr, true, Bool, ◌||◌, Option, none, some, List, [], ◌∷◌, ◌++◌,
  arith, length, Bool-cases, All, length-append, All-append, All-map, ltb, leb,
}
use personal_ai_model.Prelude.Text.{Text}
use personal_ai_model.ModelPolicy.{is_model_allowed}
use personal_ai_model.Execution.{Stage, pending, primary_review}
use personal_ai_model.Execution.Planning.{
  Route, Sources, append_below, add_best, final_stage, finals, ordinary_max, filter_routes,
  final_candidate, local_candidate, omniroute_candidate, add_freebuff, add_local, add_omniroute,
  add_final, add_review, add_best, append_below, final_stage, plan_stages, ordinary_stages, is_used,
  local_stage, omniroute_stage, classify_usage,
}
use personal_ai_model.Execution.Plan.{plan}
use personal_ai_model.Execution.Review.{IsReviewLast}

IsReviewLast-append :
    (stages : List Stage) (s : Stage)
    → s.executor ≡ primary_review
    → IsReviewLast (plan (stages ++ s ∷ []))
unfolding IsReviewLast
IsReviewLast-append [] s h = h
IsReviewLast-append (x ∷ []) s h = h
IsReviewLast-append (x ∷ (y ∷ stages)) s h = IsReviewLast-append (y ∷ stages) s h

pub plan_stages-IsReviewLast : (q : Sources) → IsReviewLast (plan (plan_stages q))
unfolding plan_stages add_review
plan_stages-IsReviewLast q = IsReviewLast-append _ _ refl

-- A model that is named is one that the policy allows.
abbrev pub IsAllowedModel : Option Text → Type 0
IsAllowedModel none = Unit
IsAllowedModel (some m) = is_model_allowed m ≡ true

-- A stage as it is planned: nobody has claimed it, and its model, if it names one, is allowed.
abbrev pub Fresh : Stage → Type 0
Fresh s =
    (s.state ≡ pending) × (s.lease_id ≡ none) × (s.dispatch_id ≡ none) × IsAllowedModel s.model

-- At most so many stages, each as it is planned.
abbrev pub FreshUpTo : ℕ → List Stage → Type 0
FreshUpTo most stages = All Fresh stages × (length stages ≤ most)

FreshUpTo-append :
    (most : ℕ) (stages : List Stage) (s : Stage)
    → All Fresh stages
    → length stages < most
    → Fresh s
    → FreshUpTo most (stages ++ s ∷ [])
FreshUpTo-append most stages s h lt f =
    (All-append Fresh stages (s ∷ []) h (f, tt), omega (arith, length-append stages (s ∷ []), lt))

FreshUpTo-append_below :
    (most : ℕ) (stages : List Stage) (s : Stage)
    → FreshUpTo most stages
    → Fresh s
    → FreshUpTo most (append_below most s stages)
unfolding append_below
FreshUpTo-append_below most stages s h f = elim (Bool-cases (ltb (length stages) most)) [
  | inl e ↦ rw (append_below, e) (FreshUpTo-append most stages s h.0 (ground (arith, e)) f)
  | inr e ↦ rw (append_below, e) h
]

filter_routes-All :
    (keep : Route → Bool) (routes : List Route)
    → All (λ r. keep r ≡ true) (filter_routes keep routes)
unfolding filter_routes
filter_routes-All keep [] = tt
filter_routes-All keep (r ∷ routes) = elim (Bool-cases (keep r)) [
  | inl e ↦ rw (filter_routes, e) (e, filter_routes-All keep routes)
  | inr e ↦ rw (filter_routes, e) (filter_routes-All keep routes)
]

local_candidate-allowed :
    (q : Sources) (r : Route) → local_candidate q.health r ≡ true → is_model_allowed r.model ≡ true
unfolding local_candidate
local_candidate-allowed q r h = ground arith

omniroute_candidate-allowed :
    (q : Sources) (r : Route)
    → omniroute_candidate q.health r ≡ true
    → is_model_allowed r.model ≡ true
unfolding omniroute_candidate
omniroute_candidate-allowed q r h = ground arith

final_candidate-allowed :
    (q : Sources) (r : Route) → final_candidate q.health r ≡ true → is_model_allowed r.model ≡ true
unfolding final_candidate classify_usage
final_candidate-allowed q r h = ground arith

ordinary_max-le : (routes : List Route) → ordinary_max routes ≤ 5
ordinary_max-le [] = omega arith
ordinary_max-le (_ ∷ _) = omega arith

module _ (q : Sources) where
  add_freebuff-FreshUpTo :
      (most : ℕ) (stages : List Stage)
      → FreshUpTo most stages
      → FreshUpTo most (add_freebuff q most stages)
  unfolding add_freebuff
  add_freebuff-FreshUpTo most stages h = elim (Bool-cases q.include_freebuff) [
    | inl e ↦ rw (add_freebuff, e) (FreshUpTo-append_below most stages _ h (refl, refl, refl, tt))
    | inr e ↦ rw (add_freebuff, e) h
  ]

  add_best-FreshUpTo :
      (most : ℕ) (routes : List Route) (build : List Stage → Route → Stage) (stages : List Stage)
      → All (λ r. Fresh (build stages r)) routes
      → FreshUpTo most stages
      → FreshUpTo most (add_best most routes build stages)
  unfolding add_best
  add_best-FreshUpTo most [] build stages f h = h
  add_best-FreshUpTo most (best ∷ routes) build stages f h =
      FreshUpTo-append_below most stages (build stages best) h f.0

  add_omniroute-FreshUpTo :
      (most : ℕ) (routes : List Route) (added : ℕ) (stages : List Stage)
      → All (λ r. omniroute_candidate q.health r ≡ true) routes
      → FreshUpTo most stages
      → FreshUpTo most (add_omniroute q most routes added stages)
  unfolding add_omniroute
  add_omniroute-FreshUpTo most [] added stages f h = h
  add_omniroute-FreshUpTo most (r ∷ routes) added stages f h =
      elim (Bool-cases (leb 3 added || leb most (length stages))) [
        | inl e ↦ rw (add_omniroute, e) h
        | inr e ↦ elim (Bool-cases (is_used r.model stages)) [
          | inl u ↦
              rw (add_omniroute, e, u) (add_omniroute-FreshUpTo most routes added stages f.1 h)
          | inr u ↦
              rw (add_omniroute, e, u)
                (add_omniroute-FreshUpTo most routes (suc added) _ f.1 (
                  FreshUpTo-append most stages (omniroute_stage q stages r) h.0 (ground (arith, e))
                    (refl, refl, refl, omniroute_candidate-allowed q r f.0)))
        ]
      ]

  pub ordinary-FreshUpTo : (most : ℕ) → FreshUpTo most (ordinary_stages q most)
  unfolding ordinary_stages add_local
  ordinary-FreshUpTo most =
      add_omniroute-FreshUpTo most (filter_routes (omniroute_candidate q.health) q.routes) 0 _
        (filter_routes-All (omniroute_candidate q.health) q.routes)
        (add_best-FreshUpTo most (filter_routes (local_candidate q.health) q.routes) (local_stage q)
          _
          (All-map (λ r e. (refl, refl, refl, local_candidate-allowed q r e))
            (filter_routes (local_candidate q.health) q.routes)
            (filter_routes-All (local_candidate q.health) q.routes))
          (add_freebuff-FreshUpTo most [] (tt, omega arith)))

  -- A plan has at most six stages; each is unclaimed, and names no model that the policy refuses.
  pub plan_stages-FreshUpTo : FreshUpTo 6 (plan_stages q)
  unfolding plan_stages add_review add_final
  plan_stages-FreshUpTo =
      let most = ordinary_max (finals q) in
      let ordinary = ordinary-FreshUpTo most in
      let finished =
        add_best-FreshUpTo 5 (finals q) (final_stage q) (ordinary_stages q most)
          (All-map (λ r e. (refl, refl, refl, final_candidate-allowed q r e)) (finals q)
            (filter_routes-All (final_candidate q.health) q.routes))
          (ordinary.0, omega (arith, ordinary.1, ordinary_max-le (finals q))) in
      FreshUpTo-append 6 _ _ finished.0 (omega (arith, finished.1)) (refl, refl, refl, tt)
