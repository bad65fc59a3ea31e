-- ===== src/Execution/Race.antt =====
-- Two processes that claim a stage of one record: `claim_execution_stage` loads the record, checks it and
-- saves it, and takes no lock between the load and the save.
use personal_ai_model.Prelude.{
  ℕ, ◌+◌, ◌*◌, ◌≡◌, ◌≢◌, refl, false, ◌||◌, some, List, [], ◌∷◌, ltb, arith, get_elem?,
  get-set-same, inl, inr,
}
use personal_ai_model.Prelude.Text.{Text}
use personal_ai_model.Prelude.Result.{Result, ok, err, Result-cases}
use personal_ai_model.Execution.{
  Stage, Execution, StageState, ExecutionError, second, append_event, save,
}
use personal_ai_model.Execution.Claim.{Env, as_claimed, claimed_record, claim_execution_stage}
use personal_ai_model.Execution.Cases.{claim_inversion}
use personal_ai_model.Execution.Outcome.{Report, record_current, check_current}

-- The arguments of a claim, what it reads besides the record, and the lease it draws.
pub record ClaimRequest : Type 0 where
  pub env : Env
  pub stage_id : Text
  pub lease_seconds : ℕ
  pub lease : Text

-- Where a process stands: before `_load_record`, with its own copy, or with its answer.
pub data Claimer : Type 0 where
  idle : Claimer
  loaded : Execution → Claimer
  answered : Result ExecutionError Stage → Claimer

-- The file of the record, and the two processes.
pub record Shared : Type 0 where
  pub file : Execution
  pub first : Claimer
  pub other : Claimer

-- A process loads the file; later it checks its copy, and writes it back if the claim is granted.
pub data Move : Type 0 where
  load_first save_first load_other save_other : Move

abbrev pub load_copy : Execution → Claimer → Claimer
load_copy file idle = loaded file
load_copy file c = c

-- What a process leaves in the file, and its answer.
abbrev pub save_answer : Execution → Result ExecutionError (Stage × Execution) → Execution × Claimer
save_answer file (err x) = (file, answered (err x))
save_answer file (ok x) = (x.1, answered (ok x.0))

unfoldable pub save_copy : ClaimRequest → Execution → Claimer → Execution × Claimer
save_copy q file (loaded r) =
    save_answer file (claim_execution_stage q.env q.stage_id q.lease_seconds q.lease r)
save_copy q file c = (file, c)

unfoldable pub move : ClaimRequest → ClaimRequest → Move → Shared → Shared
move p q load_first s = record s { first = load_copy s.file s.first }
move p q load_other s = record s { other = load_copy s.file s.other }
move p q save_first s =
    let done = save_copy p s.file s.first in record s { file = done.0; first = done.1 }
move p q save_other s =
    let done = save_copy q s.file s.other in record s { file = done.0; other = done.1 }

unfoldable pub schedule : ClaimRequest → ClaimRequest → List Move → Shared → Shared
schedule p q [] s = s
schedule p q (m ∷ ms) s = schedule p q ms (move p q m s)

-- Both load before either saves.
abbrev pub overlapped : List Move
overlapped = load_first ∷ load_other ∷ save_first ∷ save_other ∷ []

abbrev pub both_idle : Execution → Shared
both_idle r = record { file = r; first = idle; other = idle }

-- Another claim of the same stage of the same record is granted as well.
claim_again :
    (env : Env) (stage_id lease lease' : Text) (lease_seconds lease_seconds' : ℕ) (r : Execution)
    (x : Stage × Execution)
    → claim_execution_stage env stage_id lease_seconds lease r ≡ ok x
    → (ltb lease_seconds' 60 || ltb 86400 lease_seconds') ≡ false
    → (current : Stage) × (free : Stage) × (x.0
        ≡ as_claimed lease (env.now + lease_seconds * second) free)
      × (get_elem? r.stages r.current_stage_index ≡ some current)
      × (claim_execution_stage env stage_id lease_seconds' lease' r
          ≡ ok (
            as_claimed lease' (env.now + lease_seconds' * second) free,
            claimed_record env (as_claimed lease' (env.now + lease_seconds' * second) free) r,
          ))
unfolding claim_execution_stage
claim_again env stage_id lease lease' lease_seconds lease_seconds' r x e range =
    let (current, free, f, g, pend, w) = claim_inversion env stage_id lease lease_seconds r x e in
    (current, free, ground (arith, e, f, g), f, ground (arith, e, f, g, range))

-- A stage and a record with a lease.
abbrev pub IsLeased : Text → Stage → Execution → Type 0
IsLeased lease s r = (s.lease_id ≡ some lease) × (get_elem? r.stages r.current_stage_index ≡ some s)

check_current-lease :
    (p : Report) (s : Stage) → check_current p s ≡ ok tt → ¬ (s.lease_id ≢ some p.lease_id)
unfolding check_current
check_current-lease p s e n = ground arith

-- A report under another lease than that of the current stage is refused.
record_current-refused :
    (root : List Text) (resolve : Text → List Text) (now lease : Text) (p : Report)
    (outcome : StageState) (s : Stage) (r : Execution)
    → IsLeased lease s r
    → p.lease_id ≢ lease
    → (x : ExecutionError) × (record_current root resolve now p outcome r ≡ err x)
unfolding record_current
record_current-refused root resolve now lease p outcome s r (h, e) n =
    elim (Result-cases (check_current p s)) [
      | inl (x, f) ↦ (x, rw (record_current, e, f) refl)
      | inr (tt, f) ↦ absurd (check_current-lease p s f (ground arith))
    ]

-- Two processes claim the same stage, in the same surroundings and under two leases, and both load the
-- record before either saves it. Where the first claim would be granted alone, and the second asks
-- for a lease time within its bounds, both are granted; the file keeps the lease that is saved last,
-- and a result reported under the first one is refused.
pub claims-overlap :
    (p q : ClaimRequest) (root : List Text) (resolve : Text → List Text) (now : Text)
    (report : Report) (outcome : StageState) (r : Execution) (x : Stage × Execution)
    → q.env ≡ p.env
    → q.stage_id ≡ p.stage_id
    → (ltb q.lease_seconds 60 || ltb 86400 q.lease_seconds) ≡ false
    → claim_execution_stage p.env p.stage_id p.lease_seconds p.lease r ≡ ok x
    → report.lease_id ≡ p.lease
    → p.lease ≢ q.lease
    → (a : Stage) × (b : Stage) × ((schedule p q overlapped (both_idle r)).first ≡ answered (ok a))
      × ((schedule p q overlapped (both_idle r)).other ≡ answered (ok b))
      × (a.lease_id ≡ some p.lease)
      × IsLeased q.lease b ((schedule p q overlapped (both_idle r)).file)
      × ((y : ExecutionError) × (record_current root resolve now report outcome
              ((schedule p q overlapped (both_idle r)).file)
            ≡ err y))
unfolding schedule move save_copy append_event save
claims-overlap p q root resolve now report outcome r x same_env same_stage range e under n =
    let (current, free, h, f, again) =
      claim_again p.env p.stage_id p.lease q.lease p.lease_seconds q.lease_seconds r x e range in
    let b = as_claimed q.lease (p.env.now + q.lease_seconds * second) free in
    let kept : IsLeased q.lease b (claimed_record p.env b r) =
      (refl, get-set-same r.stages r.current_stage_index b current f) in
    rw (same_env, same_stage, e, again)
      (
        x.0,
        b,
        refl,
        refl,
        rw (h) refl,
        kept,
        record_current-refused root resolve now q.lease report outcome b _ kept (ground arith),
      )
