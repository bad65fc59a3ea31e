-- ===== src/Execution/Completed.antt =====
-- A record that was completed by its review stays as it is.
use personal_ai_model.Prelude.{
  ℕ, zero, suc, ◌+◌, ◌<◌, ◌≡◌, refl, true, false, Option, some, List, [], ◌∷◌, arith, get_elem?,
  length,
}
use personal_ai_model.Prelude.Text.{Text}
use personal_ai_model.Prelude.Result.{ok}
use personal_ai_model.Execution.{
  Stage, Execution, completed, passed, append_event, save, is_pending,
}
use personal_ai_model.Execution.Claim.{release_expired}
use personal_ai_model.Execution.Outcome.{Report, check_current}
use personal_ai_model.Execution.Dispatch.{Dispatch, Package, dispatch_stage, reconcile_stages}
use personal_ai_model.Execution.Recovery.{
  Place, recover_place, recover_stage, recover_stages, place_of, is_stale, is_timed_out,
}
use personal_ai_model.Execution.Cases.{
  claim_cases, record_cases, dispatch_cases, revert_cases, reconcile_cases, recover_cases,
}
use personal_ai_model.Execution.Steps.{
  Call, claim, report, dispatch, revert, reconcile, recover, step, run,
}

-- The record is completed and stands at the stage.
abbrev pub StandsAt : Stage → Execution → Type 0
StandsAt s r = (r.status ≡ completed) × (get_elem? r.stages r.current_stage_index ≡ some s)

get-reconcile_stages :
    (handoff : Stage → Option Package) (stages : List Stage) (i : ℕ) (s : Stage)
    → get_elem? stages i ≡ some s
    → s.state ≡ passed
    → get_elem? (reconcile_stages handoff stages) i ≡ some s
unfolding reconcile_stages
get-reconcile_stages handoff [] i s e h = cc
get-reconcile_stages handoff (x ∷ stages) zero s e h = ground arith
get-reconcile_stages handoff (x ∷ stages) (suc i) s e h =
    get-reconcile_stages handoff stages i s e h

is_timed_out-passed : (now : ℕ) (s : Stage) → s.state ≡ passed → is_timed_out now s ≡ false
unfolding is_timed_out
is_timed_out-passed now s h = ground arith

recover_stage-passed : (now : ℕ) (s : Stage) → s.state ≡ passed → recover_stage now s ≡ s
unfolding recover_stage is_stale is_timed_out
recover_stage-passed now s h = ground arith

pub get-recover_stages :
    (now : ℕ) (stages : List Stage) (i : ℕ) (s : Stage)
    → get_elem? stages i ≡ some s
    → recover_stage now s ≡ s
    → get_elem? (recover_stages now stages) i ≡ some s
unfolding recover_stages
get-recover_stages now [] i s e h = cc
get-recover_stages now (x ∷ stages) zero s e h = cc
get-recover_stages now (x ∷ stages) (suc i) s e h = get-recover_stages now stages i s e h

-- Behind the place, the loop does not move it.
recover_place-behind :
    (now n k : ℕ) (stages : List Stage) (p : Place)
    → p.index < k
    → recover_place now n k stages p ≡ p
unfolding recover_place
recover_place-behind now n k [] p h = refl
recover_place-behind now n k (x ∷ stages) p h =
    ground (arith, recover_place-behind now n (suc k) stages p)

pub recover_place-kept :
    (now n k j : ℕ) (stages : List Stage) (p : Place) (s : Stage)
    → get_elem? stages j ≡ some s
    → p.index ≡ k + j
    → is_timed_out now s ≡ false
    → recover_place now n k stages p ≡ p
unfolding recover_place
recover_place-kept now n k j [] p s e h g = refl
recover_place-kept now n k zero (x ∷ stages) p s e h g =
    ground (arith, recover_place-behind now n (suc k) stages p)
recover_place-kept now n k (suc j) (x ∷ stages) p s e h g =
    ground (arith, recover_place-kept now n (suc k) j stages p s e)

-- What a passed stage does not allow.
release_expired-passed :
    (now : ℕ) (s free : Stage)
    → s.state ≡ passed
    → release_expired now s ≡ ok free
    → ¬ (is_pending free.state ≡ true)
unfolding release_expired
release_expired-passed now s free h e g = ground arith

check_current-passed : (p : Report) (s : Stage) → s.state ≡ passed → ¬ (check_current p s ≡ ok tt)
unfolding check_current
check_current-passed p s h e = ground arith

dispatch_stage-passed :
    (root : List Text) (resolve : Text → List Text) (now id : Text) (d : Dispatch) (s v : Stage)
    → s.state ≡ passed
    → ¬ (dispatch_stage root resolve now id d s ≡ ok v)
unfolding dispatch_stage
dispatch_stage-passed root resolve now id d s v h e = ground arith

module _ (root : List Text) (resolve : Text → List Text) (s : Stage)
    (settled : s.state ≡ passed) where
  state_at :
      (r : Execution) (current : Stage)
      → StandsAt s r
      → get_elem? r.stages r.current_stage_index ≡ some current
      → current.state ≡ passed
  state_at r current at e = cc (settled, at.1, e)

  pub step-StandsAt : (c : Call) (r : Execution) → StandsAt s r → StandsAt s (step root resolve c r)
  unfolding step append_event save
  step-StandsAt (claim env stage_id lease_seconds lease) r at =
      claim_cases (StandsAt s) r at env stage_id lease_seconds lease λ current free e f g.
        absurd (release_expired-passed env.now current free (state_at r current at e) f g)
  step-StandsAt (report now p) r at =
      record_cases (StandsAt s) r at root resolve now p λ current v outcome e f _.
        absurd (check_current-passed p current (state_at r current at e) f)
  step-StandsAt (dispatch now id d) r at =
      dispatch_cases (StandsAt s) r at root resolve now id d λ current v e f.
        absurd (dispatch_stage-passed root resolve now id d current v (state_at r current at e) f)
  step-StandsAt (revert now stage_id lease_id) r at =
      revert_cases (StandsAt s) r at now stage_id lease_id
        λ current e f. ground (arith, state_at r current at e)
  step-StandsAt (reconcile now handoff) r at =
      reconcile_cases (StandsAt s) r at now handoff
        (at.0, get-reconcile_stages handoff r.stages r.current_stage_index s at.1 settled)
  step-StandsAt (recover now stamp) r at = recover_cases (StandsAt s) r at now stamp ground (
    arith,
    recover_place-kept now (length r.stages) 0 r.current_stage_index r.stages (place_of r) s,
    is_timed_out-passed now s settled,
    recover_stage-passed now s settled,
    get-recover_stages now r.stages r.current_stage_index s,
    at,
  )

  -- Once a record is completed and stands at a passed stage, no sequence of operations changes its
  -- status, its place or that stage.
  pub run-StandsAt :
      (cs : List Call) (r : Execution) → StandsAt s r → StandsAt s (run root resolve cs r)
  unfolding run
  run-StandsAt [] r at = at
  run-StandsAt (c ∷ cs) r at = run-StandsAt cs (step root resolve c r) (step-StandsAt c r at)
