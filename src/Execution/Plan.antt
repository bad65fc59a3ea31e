-- ===== src/Execution/Plan.antt =====
-- The part of a stage that `plan_execution` fixes, and that no operation of execution.py rewrites.
use personal_ai_model.Prelude.{
  ℕ, zero, suc, ◌≡◌, refl, ap, Bool-cases, inl, inr, Option, some, List, [], ◌∷◌, arith, get_elem?,
  set,
}
use personal_ai_model.Prelude.Text.{Text}
use personal_ai_model.Prelude.Result.{ok}
use personal_ai_model.Execution.{Executor, Stage, StageState, is_pending}
use personal_ai_model.Execution.Claim.{release_expired}
use personal_ai_model.Execution.Advance.{skip_range}
use personal_ai_model.Execution.Outcome.{Report, settle_stage}
use personal_ai_model.Execution.Dispatch.{Dispatch, dispatch_stage, is_orphan, reconcile_stages}
use personal_ai_model.Execution.Recovery.{recover_stage, recover_stages, is_stale, is_timed_out}

pub record Planned : Type 0 where
  pub id : Text
  pub executor : Executor
  pub provider : Option Text
  pub model : Option Text
  pub purpose : Text
  pub allowed_paths : List Text

abbrev pub planned : Stage → Planned
planned s = record {
  id = s.id;
  executor = s.executor;
  provider = s.provider;
  model = s.model;
  purpose = s.purpose;
  allowed_paths = s.allowed_paths;
}

abbrev pub plan : List Stage → List Planned
plan [] = []
plan (s ∷ stages) = planned s ∷ plan stages

pub plan-set :
    (stages : List Stage) (i : ℕ) (s v : Stage)
    → get_elem? stages i ≡ some s
    → planned v ≡ planned s
    → plan (set stages i v) ≡ plan stages
plan-set [] i s v e h = refl
plan-set (x ∷ stages) zero s v e h = cc
plan-set (x ∷ stages) (suc i) s v e h = ap (λ l. planned x ∷ l) (plan-set stages i s v e h)

pub plan-skip_range : (lo n : ℕ) (stages : List Stage) → plan (skip_range lo n stages) ≡ plan stages
unfolding skip_range
plan-skip_range lo n [] = refl
plan-skip_range (suc lo) n (s ∷ stages) = ap (λ l. planned s ∷ l) (plan-skip_range lo n stages)
plan-skip_range zero zero (s ∷ stages) = refl
plan-skip_range zero (suc n) (s ∷ stages) = elim (Bool-cases (is_pending s.state)) [
  | inl e ↦ rw (e) (cc (plan-skip_range zero n stages))
  | inr e ↦ rw (e) (cc (plan-skip_range zero n stages))
]

pub plan-reconcile_stages :
    (handoff : Stage → _) (stages : List Stage)
    → plan (reconcile_stages handoff stages) ≡ plan stages
unfolding reconcile_stages
plan-reconcile_stages handoff [] = refl
plan-reconcile_stages handoff (s ∷ stages) = elim (Bool-cases (is_orphan handoff s)) [
  | inl e ↦ rw (e) (cc (plan-reconcile_stages handoff stages))
  | inr e ↦ rw (e) (cc (plan-reconcile_stages handoff stages))
]

pub planned-recover_stage : (now : ℕ) (s : Stage) → planned (recover_stage now s) ≡ planned s
unfolding recover_stage
planned-recover_stage now s = elim (Bool-cases (is_stale now s)) [
  | inl e ↦ rw (e) refl
  | inr e ↦ elim (Bool-cases (is_timed_out now s)) [
    | inl f ↦ rw (e, f) refl
    | inr f ↦ rw (e, f) refl
  ]
]

pub plan-recover_stages :
    (now : ℕ) (stages : List Stage) → plan (recover_stages now stages) ≡ plan stages
unfolding recover_stages
plan-recover_stages now [] = refl
plan-recover_stages now (s ∷ stages) =
    cc (planned-recover_stage now s, plan-recover_stages now stages)

pub planned-release_expired :
    (now : ℕ) (s free : Stage) → release_expired now s ≡ ok free → planned free ≡ planned s
unfolding release_expired
planned-release_expired now s free e = ground arith

module _ (root : List Text) (resolve : Text → List Text) where
  pub planned-settle_stage :
      (p : Report) (outcome : StageState) (s v : Stage)
      → settle_stage root resolve p outcome s ≡ ok v
      → (planned v ≡ planned s) × (v.state ≡ outcome)
  unfolding settle_stage
  planned-settle_stage p outcome s v e = ground arith

  pub planned-dispatch_stage :
      (now dispatch : Text) (d : Dispatch) (s v : Stage)
      → dispatch_stage root resolve now dispatch d s ≡ ok v
      → planned v ≡ planned s
  unfolding dispatch_stage
  planned-dispatch_stage now dispatch d s v e = ground arith
