-- ===== src/Execution/Replay.antt =====
-- A report that is sent again is answered as before.
use personal_ai_model.Prelude.{
  ℕ, zero, suc, ◌-◌, ◌≡◌, refl, sym, subst, ap, ◌∙◌, inl, inr, ◌⊎◌, true, ◌||◌, none, some, List,
  [], ◌∷◌, arith, get_elem?, set, Bool-cases, Option-cases,
}
use personal_ai_model.Prelude.Text.{Text}
use personal_ai_model.Prelude.Result.{Result-cases, ok}
use personal_ai_model.Execution.{
  Stage, StageState, Execution, append_event, save, is_claimed, is_pending, is_settled, is_review,
  passed,
}
use personal_ai_model.Execution.Advance.{
  skip_range, next_index, advance, advance_passed, advance_review, advance_ordinary,
}
use personal_ai_model.Execution.Outcome.{
  Report, outcome_named, is_replay, find_replay, check_replay, check_current, settle_stage,
  settled_record, record_current, record_execution_result,
}
use personal_ai_model.Execution.Steps.{plan-move_to, plan-advance_failed}

skip_range-zero : (lo : ℕ) (stages : List Stage) → skip_range lo zero stages ≡ stages
unfolding skip_range
skip_range-zero lo [] = refl
skip_range-zero zero (s ∷ stages) = refl
skip_range-zero (suc lo) (s ∷ stages) = ap (λ l. s ∷ l) (skip_range-zero lo stages)

stages-advance_passed :
    (now : Text) (r : Execution)
    → (advance_passed now r).stages
      ≡ skip_range
          (suc r.current_stage_index)
          (next_index r.stages r.current_stage_index - suc r.current_stage_index)
          r.stages
unfolding advance_passed
stages-advance_passed now r = plan-move_to now (next_index r.stages r.current_stage_index) _

-- The move to the next stage rewrites no stage up to the current one.
pub stages-advance :
    (now : Text) (s : Stage) (outcome : StageState) (r : Execution)
    → (n : ℕ) × ((advance now s outcome r).stages
        ≡ skip_range (suc r.current_stage_index) n r.stages)
unfolding advance append_event
stages-advance now s outcome r = elim (Bool-cases (is_review s.executor)) [
  | inl e ↦ rw (advance, e) (zero, review outcome ∙ kept)
  | inr e ↦ rw (advance, e) (ordinary outcome)
]
  where
    kept : r.stages ≡ skip_range (suc r.current_stage_index) zero r.stages
    kept = sym (skip_range-zero (suc r.current_stage_index) r.stages)

    review : (o : StageState) → (advance_review now o r).stages ≡ r.stages
    review passed = refl
    review _ = refl

    ordinary :
        (o : StageState)
        → (n : ℕ) × ((advance_ordinary now o r).stages
            ≡ skip_range (suc r.current_stage_index) n r.stages)
    ordinary passed = (
      next_index r.stages r.current_stage_index - suc r.current_stage_index,
      stages-advance_passed now r,
    )
    ordinary _ = (zero, plan-advance_failed now r ∙ kept)

-- The stage that a report settled is the one that its repetition finds.
find_replay-settled :
    (p : Report) (stages : List Stage) (i n : ℕ) (current s : Stage)
    → find_replay p stages ≡ none
    → get_elem? stages i ≡ some current
    → is_replay p s ≡ true
    → find_replay p (skip_range (suc i) n (set stages i s)) ≡ some s
unfolding find_replay skip_range
find_replay-settled p [] i n current s e f h = cc
find_replay-settled p (x ∷ stages) zero n current s e f h = rw (h) refl
find_replay-settled p (x ∷ stages) (suc i) n current s e f h = elim (Bool-cases (is_replay p x)) [
  | inl g ↦ ground (arith, e, g)
  | inr g ↦ rw (g) (find_replay-settled p stages i n current s (ground (arith, e, g)) f h)
]

-- Before a stage is dispatched it has no dispatch id.
abbrev pub Undispatched : Stage → Type 0
Undispatched s = (is_claimed s.state || is_pending s.state) ≡ true → s.dispatch_id ≡ none

abbrev SameBinding : Stage → Stage → Type 0
SameBinding s current =
    (s.id ≡ current.id)
    × (s.lease_id ≡ current.lease_id)
    × (s.dispatch_id ≡ current.dispatch_id)
    × (s.adapter_target ≡ current.adapter_target)
    × (s.adapter_token ≡ current.adapter_token)

settle_stage-SameBinding :
    (root : List Text) (resolve : Text → List Text) (p : Report) (outcome : StageState)
    (current s : Stage)
    → settle_stage root resolve p outcome current ≡ ok s
    → SameBinding s current × (s.state ≡ outcome)
unfolding settle_stage
settle_stage-SameBinding root resolve p outcome current s f = ground arith

pub outcome_named-is_settled :
    (text : Text) (outcome : StageState)
    → outcome_named text ≡ some outcome
    → is_settled outcome ≡ true
unfolding outcome_named
outcome_named-is_settled text outcome e = ground arith

check_current-is_replay :
    (p : Report) (current s : Stage)
    → check_current p current ≡ ok tt
    → SameBinding s current
    → is_settled s.state ≡ true
    → is_replay p s ≡ true
unfolding check_current is_replay
check_current-is_replay p current s c h g = ground (arith, h.0, h.1)

check_current-check_replay :
    (p : Report) (current s : Stage)
    → Undispatched current
    → check_current p current ≡ ok tt
    → SameBinding s current
    → check_replay p s ≡ ok tt
unfolding check_current check_replay
check_current-check_replay p current s u c h = ground arith

-- A report that finds a stage it settled is answered from that stage.
record_execution_result-found :
    (root : List Text) (resolve : Text → List Text) (now : Text) (p : Report) (r : Execution)
    (outcome : StageState) (s : Stage)
    → outcome_named p.outcome ≡ some outcome
    → find_replay p r.stages ≡ some s
    → check_replay p s ≡ ok tt
    → record_execution_result root resolve now p r ≡ ok (s.state, r)
unfolding record_execution_result
record_execution_result-found root resolve now p r outcome s o f c =
    rw (record_execution_result, o, f, c) refl

abbrev Fresh :
    List Text
    → (Text → List Text)
    → Text
    → Report
    → Execution
    → StageState
    → StageState × Execution
    → Type 0
Fresh root resolve now p r outcome x =
    (current : Stage) × (s : Stage) × (find_replay p r.stages ≡ none)
    × (get_elem? r.stages r.current_stage_index ≡ some current)
    × (check_current p current ≡ ok tt)
    × (settle_stage root resolve p outcome current ≡ ok s)
    × (x ≡ (outcome, settled_record now s outcome r))

-- What a report that is accepted read and wrote.
pub record_inversion :
    (root : List Text) (resolve : Text → List Text) (now : Text) (p : Report) (r : Execution)
    (x : StageState × Execution)
    → record_execution_result root resolve now p r ≡ ok x
    → (outcome : StageState) × (outcome_named p.outcome ≡ some outcome)
      × (((s : Stage) × (find_replay p r.stages ≡ some s)
            × (check_replay p s ≡ ok tt)
            × (x ≡ (s.state, r)))
          ⊎ Fresh root resolve now p r outcome x)
unfolding record_execution_result record_current
record_inversion root resolve now p r x e = elim (Option-cases (outcome_named p.outcome)) [
  | inl o ↦ ground (arith, e, o)
  | inr (outcome, o) ↦ elim (Option-cases (find_replay p r.stages)) [
    | inr (s, f) ↦ elim (Result-cases (check_replay p s)) [
      | inl (y, c) ↦ ground (arith, e, o, f, c)
      | inr (tt, c) ↦ (outcome, o, inl (s, f, c, ground (arith, e, o, f, c)))
    ]
    | inl f ↦ elim (Option-cases (get_elem? r.stages r.current_stage_index)) [
      | inl g ↦ ground (arith, e, o, f, g)
      | inr (current, g) ↦ elim (Result-cases (check_current p current)) [
        | inl (y, c) ↦ ground (arith, e, o, f, g, c)
        | inr (tt, c) ↦ elim (Result-cases (settle_stage root resolve p outcome current)) [
          | inl (y, h) ↦ ground (arith, e, o, f, g, c, h)
          | inr (s, h) ↦
              (outcome, o, inr (current, s, f, g, c, h, ground (arith, e, o, f, g, c, h)))
        ]
      ]
    ]
  ]
]

find_replay-settled_record :
    (now : Text) (p : Report) (outcome : StageState) (r : Execution) (current s : Stage)
    → find_replay p r.stages ≡ none
    → get_elem? r.stages r.current_stage_index ≡ some current
    → is_replay p s ≡ true
    → find_replay p ((settled_record now s outcome r).stages) ≡ some s
unfolding settled_record append_event save
find_replay-settled_record now p outcome r current s f g h =
    let moved = stages-advance now s outcome _ in
    ap (find_replay p) moved.1
    ∙ find_replay-settled p r.stages r.current_stage_index moved.0 current s f g h

-- A report that was accepted is accepted again with the same answer, and the record stays as it is;
-- the current stage must not have a dispatch id before its dispatch.
pub record_execution_result_idem :
    (root : List Text) (resolve : Text → List Text) (now later : Text) (p : Report) (r : Execution)
    (x : StageState × Execution)
    → ((s : Stage) → get_elem? r.stages r.current_stage_index ≡ some s → Undispatched s)
    → record_execution_result root resolve now p r ≡ ok x
    → record_execution_result root resolve later p x.1 ≡ ok x
record_execution_result_idem root resolve now later p r x undispatched e =
    let (outcome, o, read) = record_inversion root resolve now p r x e in
    elim read [
      | inl (s, f, c, w) ↦
          subst (λ y. record_execution_result root resolve later p y.1 ≡ ok y) (sym w)
            (record_execution_result-found root resolve later p r outcome s o f c)
      | inr (current, s, f, g, c, h, w) ↦
          let same = settle_stage-SameBinding root resolve p outcome current s h in
          let settled =
            subst (λ y. is_settled y ≡ true) (sym same.1)
              (outcome_named-is_settled p.outcome outcome o) in
          let again =
            record_execution_result-found root resolve later p (settled_record now s outcome r)
              outcome s o
              (find_replay-settled_record now p outcome r current s f g
                (check_current-is_replay p current s c same.0 settled))
              (check_current-check_replay p current s (undispatched current g) c same.0) in
          subst (λ y. record_execution_result root resolve later p y.1 ≡ ok y) (sym w)
            (again ∙ ap (λ y. ok (y, settled_record now s outcome r)) same.1)
    ]
