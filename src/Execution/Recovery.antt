-- ===== src/Execution/Recovery.antt =====
-- `recover_execution` of execution.py.
use personal_ai_model.Prelude.{
  ℕ, suc, Bool, false, ◌&&◌, ◌||◌, none, List, [], ◌∷◌, leb, length, nat_eq, if◌then◌else◌,
}
use personal_ai_model.Prelude.Text.{Text, codes, truthy}
use personal_ai_model.Execution.{
  Stage, StageState, RecordStatus, Execution, pending, running, is_claimed, is_dispatched, is_over,
  append_event, save,
}

-- A claim whose lease has run out.
unfoldable pub is_stale : ℕ → Stage → Bool
is_stale now s = is_claimed s.state && truthy s.lease_id && is_over s.lease_expires_at now

-- A dispatch whose lease has run out.
unfoldable pub is_timed_out : ℕ → Stage → Bool
is_timed_out now s = is_dispatched s.state && truthy s.lease_id && is_over s.lease_expires_at now

abbrev pub as_released : Stage → Stage
as_released s = record s { state = pending; lease_id = none; lease_expires_at = none }

abbrev pub as_timed_out : Stage → Stage
as_timed_out s = record s {
  state = StageState.failed;
  evidence = codes "Asynchronous dispatch timed out before a verified result was received.";
}

unfoldable pub recover_stage : ℕ → Stage → Stage
recover_stage now s =
    if is_stale now s then as_released s else if is_timed_out now s then as_timed_out s else s

unfoldable pub recover_stages : ℕ → List Stage → List Stage
recover_stages now [] = []
recover_stages now (s ∷ stages) = recover_stage now s ∷ recover_stages now stages

-- Where the record stands while the loop runs.
pub record Place : Type 0 where
  pub index : ℕ
  pub status : RecordStatus

-- A stage that times out where the record stands moves it on; `n` is the number of the stages.
abbrev pub passed_over : ℕ → Place → Place
passed_over n p = record {
  index = suc p.index;
  status = if leb n (suc p.index) then RecordStatus.failed else running;
}

-- for index, stage in enumerate(record.stages), from `index` on.
unfoldable pub recover_place : ℕ → ℕ → ℕ → List Stage → Place → Place
recover_place now n index [] p = p
recover_place now n index (s ∷ stages) p =
    let here = if is_timed_out now s && nat_eq index p.index then passed_over n p else p in
    let rest = recover_place now n (suc index) stages here in rest

unfoldable pub any_recovered : ℕ → List Stage → Bool
any_recovered now [] = false
any_recovered now (s ∷ stages) = is_stale now s || is_timed_out now s || any_recovered now stages

abbrev pub place_of : Execution → Place
place_of r = record { index = r.current_stage_index; status = r.status }

abbrev pub at_place : Place → Execution → Execution
at_place p r = record r { current_stage_index = p.index; status = p.status }

abbrev pub recovered_record : ℕ → Text → Execution → Execution
recovered_record now stamp r =
    let p = recover_place now (length r.stages) 0 r.stages (place_of r) in
    let recovered = record (at_place p r) { stages = recover_stages now r.stages } in
    save stamp (append_event stamp (codes "recovery") (codes "Recovered stale claims") recovered)

-- The record is saved if a stage was recovered.
unfoldable pub recover_execution : ℕ → Text → Execution → Execution
recover_execution now stamp r =
    if any_recovered now r.stages then recovered_record now stamp r else r
