-- ===== src/Execution/Undispatched.antt =====
-- In a record that was planned, a stage has no dispatch id before it is dispatched; so the replay of a
-- report is safe at any time.
use personal_ai_model.Prelude.{
  ℕ, zero, suc, ◌≡◌, refl, sym, subst, inl, inr, Bool, true, none, Option, List, [], ◌∷◌, arith,
  set, Bool-cases, All, All-get, All-set, All-map,
}
use personal_ai_model.Prelude.Text.{Text}
use personal_ai_model.Prelude.Result.{ok, Result-cases}
use personal_ai_model.Execution.{
  Stage, StageState, Execution, append_event, save, is_pending, is_settled,
}
use personal_ai_model.Execution.Claim.{release_expired}
use personal_ai_model.Execution.Advance.{as_skipped, skip_range}
use personal_ai_model.Execution.Outcome.{
  Report, settle_stage, settled_record, record_execution_result,
}
use personal_ai_model.Execution.Dispatch.{
  Dispatch, Package, dispatch_stage, is_orphan, reconcile_stages,
}
use personal_ai_model.Execution.Recovery.{recover_stage, recover_stages, is_stale, is_timed_out}
use personal_ai_model.Execution.PlanExecution.{Inputs, plan_execution}
use personal_ai_model.Execution.Cases.{
  after, claim_cases, dispatch_cases, revert_cases, reconcile_cases, recover_cases,
}
use personal_ai_model.Execution.Steps.{
  Call, claim, report, dispatch, revert, reconcile, recover, step, run,
}
use personal_ai_model.Execution.Fresh.{Fresh}
use personal_ai_model.Execution.Planned.{plan_execution-planned}
use personal_ai_model.Execution.Replay.{
  Undispatched, stages-advance, record_inversion, outcome_named-is_settled,
  record_execution_result_idem,
}

abbrev pub AllUndispatched : Execution → Type 0
AllUndispatched r = All Undispatched r.stages

release_expired-Undispatched :
    (now : ℕ) (s free : Stage)
    → Undispatched s
    → release_expired now s ≡ ok free
    → is_pending free.state ≡ true
    → free.dispatch_id ≡ none
unfolding release_expired
release_expired-Undispatched now s free h e g = ground arith

settle_stage-Undispatched :
    (root : List Text) (resolve : Text → List Text) (p : Report) (outcome : StageState)
    (current s : Stage)
    → is_settled outcome ≡ true
    → settle_stage root resolve p outcome current ≡ ok s
    → Undispatched s
unfolding settle_stage
settle_stage-Undispatched root resolve p outcome current s h e g = ground arith

dispatch_stage-Undispatched :
    (root : List Text) (resolve : Text → List Text) (now id : Text) (d : Dispatch) (s v : Stage)
    → dispatch_stage root resolve now id d s ≡ ok v
    → Undispatched v
unfolding dispatch_stage
dispatch_stage-Undispatched root resolve now id d s v e g = ground arith

as_skipped-Undispatched : (s : Stage) → Undispatched s → Undispatched (as_skipped s)
as_skipped-Undispatched s h g = ground arith

skip_range-Undispatched :
    (lo n : ℕ) (stages : List Stage)
    → All Undispatched stages
    → All Undispatched (skip_range lo n stages)
unfolding skip_range
skip_range-Undispatched lo n [] h = tt
skip_range-Undispatched (suc lo) n (s ∷ stages) (p, h) = (p, skip_range-Undispatched lo n stages h)
skip_range-Undispatched zero zero (s ∷ stages) h = h
skip_range-Undispatched zero (suc n) (s ∷ stages) (p, h) =
    (as_skipped-Undispatched s p, skip_range-Undispatched zero n stages h)

reconcile_stages-Undispatched :
    (handoff : Stage → Option Package) (stages : List Stage)
    → All Undispatched stages
    → All Undispatched (reconcile_stages handoff stages)
unfolding reconcile_stages
reconcile_stages-Undispatched handoff [] h = tt
reconcile_stages-Undispatched handoff (s ∷ stages) (p, h) =
    elim (Bool-cases (is_orphan handoff s)) [
      | inl e ↦ rw (e) (λ _. refl, reconcile_stages-Undispatched handoff stages h)
      | inr e ↦ rw (e) (p, reconcile_stages-Undispatched handoff stages h)
    ]

recover_stage-Undispatched :
    (now : ℕ) (s : Stage) → Undispatched s → Undispatched (recover_stage now s)
unfolding recover_stage is_stale is_timed_out
recover_stage-Undispatched now s h g = ground arith

recover_stages-Undispatched :
    (now : ℕ) (stages : List Stage)
    → All Undispatched stages
    → All Undispatched (recover_stages now stages)
unfolding recover_stages
recover_stages-Undispatched now [] h = tt
recover_stages-Undispatched now (s ∷ stages) (p, h) =
    (recover_stage-Undispatched now s p, recover_stages-Undispatched now stages h)

module _ (root : List Text) (resolve : Text → List Text) where
  settled_record-Undispatched :
      (now : Text) (p : Report) (s : Stage) (outcome : StageState) (r : Execution)
      → AllUndispatched r
      → Undispatched s
      → AllUndispatched (settled_record now s outcome r)
  unfolding settled_record append_event save
  settled_record-Undispatched now p s outcome r h u =
      let moved = stages-advance now s outcome _ in
      subst (All Undispatched) (sym moved.1) (
        skip_range-Undispatched (suc r.current_stage_index) moved.0
          (set r.stages r.current_stage_index s)
          (All-set Undispatched r.stages r.current_stage_index s h u))

  record-Undispatched :
      (now : Text) (p : Report) (r : Execution)
      → AllUndispatched r
      → AllUndispatched (after r (record_execution_result root resolve now p r))
  record-Undispatched now p r h =
      elim (Result-cases (record_execution_result root resolve now p r)) [
        | inl (x, e) ↦ rw (e) h
        | inr (x, e) ↦
            let (outcome, o, read) = record_inversion root resolve now p r x e in
            elim read [
              | inl (s, f, c, w) ↦ rw (e, w) h
              | inr (current, s, f, g, c, settle, w) ↦
                  rw (e, w)
                    (settled_record-Undispatched now p s outcome r h (
                      settle_stage-Undispatched root resolve p outcome current s
                        (outcome_named-is_settled p.outcome outcome o) settle))
            ]
      ]

  step-Undispatched :
      (c : Call) (r : Execution) → AllUndispatched r → AllUndispatched (step root resolve c r)
  unfolding step append_event save
  step-Undispatched (claim env stage_id lease_seconds lease) r h =
      claim_cases AllUndispatched r h env stage_id lease_seconds lease λ current free e f g.
        All-set Undispatched r.stages r.current_stage_index _ h λ _.
          release_expired-Undispatched env.now current free
            (All-get Undispatched r.stages r.current_stage_index current h e) f g
  step-Undispatched (report now p) r h = record-Undispatched now p r h
  step-Undispatched (dispatch now id d) r h =
      dispatch_cases AllUndispatched r h root resolve now id d λ current s e f.
        All-set Undispatched r.stages r.current_stage_index s h
          (dispatch_stage-Undispatched root resolve now id d current s f)
  step-Undispatched (revert now stage_id lease_id) r h =
      revert_cases AllUndispatched r h now stage_id lease_id
        λ current e f. All-set Undispatched r.stages r.current_stage_index _ h λ _. refl
  step-Undispatched (reconcile now handoff) r h =
      reconcile_cases AllUndispatched r h now handoff
        (reconcile_stages-Undispatched handoff r.stages h)
  step-Undispatched (recover now stamp) r h =
      recover_cases AllUndispatched r h now stamp (recover_stages-Undispatched now r.stages h)

  run-Undispatched :
      (cs : List Call) (r : Execution) → AllUndispatched r → AllUndispatched (run root resolve cs r)
  unfolding run
  run-Undispatched [] r h = h
  run-Undispatched (c ∷ cs) r h =
      run-Undispatched cs (step root resolve c r) (step-Undispatched c r h)

module _ (classify : Text → Text) (is_protected : Text → Bool) (is_alnum : ℕ → Bool) where
  -- At any point in the life of a new plan, a report that is accepted is accepted again with the same
  -- answer, and the record stays as it is.
  pub replay_idem :
      (i : Inputs) (orchestration_id : Text) (r : Execution) (root : List Text)
      (resolve : Text → List Text) (cs : List Call) (now later : Text) (p : Report)
      (x : StageState × Execution)
      → i.existing ≡ none
      → plan_execution classify is_protected is_alnum i orchestration_id ≡ ok r
      → record_execution_result root resolve now p (run root resolve cs r) ≡ ok x
      → record_execution_result root resolve later p x.1 ≡ ok x
  replay_idem i orchestration_id r root resolve cs now later p x new e accepted =
      let start =
        plan_execution-planned classify is_protected is_alnum i orchestration_id r new e in
      let reached = run root resolve cs r in
      let fresh =
        run-Undispatched root resolve cs r
          (All-map {P = Fresh} {Q = Undispatched} (λ s f _. f.2) r.stages start.2.0) in
      record_execution_result_idem root resolve now later p reached x
        (λ s at. All-get Undispatched reached.stages reached.current_stage_index s fresh at)
        accepted
