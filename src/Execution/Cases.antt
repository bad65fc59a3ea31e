-- ===== src/Execution/Cases.antt =====
-- One rule for each operation: a property of the record afterwards holds if it holds of the record as
-- it was and of each record that the operation can write.
use personal_ai_model.Prelude.{
  ℕ, ◌≡◌, ◌+◌, ◌*◌, inl, inr, true, Option, some, List, arith, get_elem?, Option-cases, Bool-cases,
}
use personal_ai_model.Prelude.Text.{Text}
use personal_ai_model.Prelude.Result.{Result, ok, err, Result-cases}
use personal_ai_model.Execution.{
  Stage, StageState, Execution, ExecutionError, second, is_pending, is_dispatched,
}
use personal_ai_model.Execution.Claim.{
  Env, release_expired, as_claimed, claimed_record, claim_execution_stage,
}
use personal_ai_model.Execution.Outcome.{
  Report, find_replay, check_current, settle_stage, settled_record, record_current,
  record_execution_result, outcome_named,
}
use personal_ai_model.Execution.Recovery.{recovered_record, recover_execution, any_recovered}
use personal_ai_model.Execution.Dispatch.{
  Package, reconcile_record, reconciled_record, Dispatch, dispatch_stage, dispatched_record,
  mark_execution_dispatched, revert_execution_dispatch, reverted_record,
}

-- A call that raises leaves the file as it was.
abbrev pub after {ℓ} : {A : Type ℓ} → Execution → Result ExecutionError (A × Execution) → Execution
after r (ok (a, written)) = written
after r (err e) = r

module _ {ℓ} (P : Execution → Type ℓ) (r : Execution) (kept : P r) where
  pub claim_cases :
      (env : Env) (stage_id : Text) (lease_seconds : ℕ) (lease : Text)
      → ((current free : Stage)
          → get_elem? r.stages r.current_stage_index ≡ some current
          → release_expired env.now current ≡ ok free
          → is_pending free.state ≡ true
          → P (claimed_record env (as_claimed lease (env.now + lease_seconds * second) free) r))
      → P (after r (claim_execution_stage env stage_id lease_seconds lease r))
  unfolding claim_execution_stage
  claim_cases env stage_id lease_seconds lease moved =
      elim (Option-cases (get_elem? r.stages r.current_stage_index)) [
        | inl e ↦ rw (e, claim_execution_stage) (ground arith)
        | inr (current, e) ↦ elim (Result-cases (release_expired env.now current)) [
          | inl (x, f) ↦ rw (e, claim_execution_stage, f) (ground (arith, kept))
          | inr (free, f) ↦
              rw (e, claim_execution_stage, f) (ground (arith, moved current free e f, kept))
        ]
      ]

  module _ (root : List Text) (resolve : Text → List Text) (now : Text) where
    current_cases :
        (p : Report) (outcome : StageState)
        → ((current s : Stage) (outcome : StageState)
            → get_elem? r.stages r.current_stage_index ≡ some current
            → check_current p current ≡ ok tt
            → settle_stage root resolve p outcome current ≡ ok s
            → P (settled_record now s outcome r))
        → P (after r (record_current root resolve now p outcome r))
    unfolding record_current
    current_cases p outcome moved = elim (Option-cases (get_elem? r.stages r.current_stage_index)) [
      | inl e ↦ rw (e, record_current) kept
      | inr (current, e) ↦ elim (Result-cases (check_current p current)) [
        | inl (x, c) ↦ rw (e, record_current, c) kept
        | inr (tt, c) ↦ elim (Result-cases (settle_stage root resolve p outcome current)) [
          | inl (x, f) ↦ rw (e, record_current, c, f) kept
          | inr (s, f) ↦ rw (e, record_current, c, f) (moved current s outcome e c f)
        ]
      ]
    ]

    pub record_cases :
        (p : Report)
        → ((current s : Stage) (outcome : StageState)
            → get_elem? r.stages r.current_stage_index ≡ some current
            → check_current p current ≡ ok tt
            → settle_stage root resolve p outcome current ≡ ok s
            → P (settled_record now s outcome r))
        → P (after r (record_execution_result root resolve now p r))
    unfolding record_execution_result
    record_cases p moved = elim (Option-cases (outcome_named p.outcome)) [
      | inl o ↦ rw (record_execution_result, o) kept
      | inr (outcome, o) ↦ elim (Option-cases (find_replay p r.stages)) [
        | inr (s, f) ↦ rw (record_execution_result, o, f) (ground (arith, kept))
        | inl f ↦ rw (record_execution_result, o, f) (current_cases p outcome moved)
      ]
    ]

    pub dispatch_cases :
        (dispatch : Text) (d : Dispatch)
        → ((current s : Stage)
            → get_elem? r.stages r.current_stage_index ≡ some current
            → dispatch_stage root resolve now dispatch d current ≡ ok s
            → P (dispatched_record now s r))
        → P (after r (mark_execution_dispatched root resolve now dispatch d r))
    unfolding mark_execution_dispatched
    dispatch_cases dispatch d moved =
        elim (Option-cases (get_elem? r.stages r.current_stage_index)) [
          | inl e ↦ rw (e, mark_execution_dispatched) kept
          | inr (current, e) ↦
              elim (Result-cases (dispatch_stage root resolve now dispatch d current)) [
                | inl (x, f) ↦ rw (e, mark_execution_dispatched, f) (ground (arith, kept))
                | inr (s, f) ↦
                    rw (e, mark_execution_dispatched, f) (ground (arith, moved current s e f, kept))
              ]
        ]

  pub revert_cases :
      (now stage_id lease_id : Text)
      → ((current : Stage)
          → get_elem? r.stages r.current_stage_index ≡ some current
          → is_dispatched current.state ≡ true
          → P (reverted_record now current r))
      → P (revert_execution_dispatch now stage_id lease_id r)
  unfolding revert_execution_dispatch
  revert_cases now stage_id lease_id moved =
      elim (Option-cases (get_elem? r.stages r.current_stage_index)) [
        | inl e ↦ rw (e, revert_execution_dispatch) kept
        | inr (s, e) ↦ rw (e, revert_execution_dispatch) (ground (arith, moved s e, kept))
      ]

  pub reconcile_cases :
      (now : Text) (handoff : Stage → Option Package)
      → P (reconciled_record now handoff r)
      → P (reconcile_record now handoff r)
  unfolding reconcile_record
  reconcile_cases now handoff moved = ground (arith, kept, moved)

  pub recover_cases :
      (now : ℕ) (stamp : Text)
      → P (recovered_record now stamp r)
      → P (recover_execution now stamp r)
  unfolding recover_execution
  recover_cases now stamp moved = elim (Bool-cases (any_recovered now r.stages)) [
    | inl e ↦ rw (recover_execution, e) moved
    | inr e ↦ rw (recover_execution, e) kept
  ]

-- What a successful claim read and wrote.
pub claim_inversion :
    (env : Env) (stage_id lease : Text) (lease_seconds : ℕ) (r : Execution) (x : Stage × Execution)
    → claim_execution_stage env stage_id lease_seconds lease r ≡ ok x
    → (current : Stage) × (free : Stage) × (get_elem? r.stages r.current_stage_index ≡ some current)
      × (release_expired env.now current ≡ ok free)
      × (is_pending free.state ≡ true)
      × (x.1 ≡ claimed_record env (as_claimed lease (env.now + lease_seconds * second) free) r)
unfolding claim_execution_stage
claim_inversion env stage_id lease lease_seconds r x e =
    elim (Option-cases (get_elem? r.stages r.current_stage_index)) [
      | inl f ↦ ground (arith, e, f)
      | inr (current, f) ↦ elim (Result-cases (release_expired env.now current)) [
        | inl (y, g) ↦ ground (arith, e, f, g)
        | inr (free, g) ↦ (current, free, f, g, ground (arith, e, f, g), ground (arith, e, f, g))
      ]
    ]
