-- ===== src/Execution/Advance.antt =====
-- `record_execution_result` of execution.py: the move to the next stage.
use personal_ai_model.Prelude.{
  ℕ, zero, suc, ◌-◌, Bool, false, ◌||◌, none, some, List, [], ◌∷◌, ltb, leb, max, get_elem?, length,
  if◌then◌else◌,
}
use personal_ai_model.Prelude.Text.{Text, codes}
use personal_ai_model.Execution.{
  Stage, StageState, RecordStatus, Execution, passed, skipped, running, completed,
  awaiting_final_review, is_pending, is_review, is_final_review, append_event, append_to, Event,
}

-- for i in range(len(stages) - 2, idx, -1): the last final review behind the current stage, or the
-- last stage.
unfoldable pub terminal_from : List Stage → ℕ → ℕ → ℕ
terminal_from stages idx zero = length stages - 1
terminal_from stages idx (suc i) =
    let rest = terminal_from stages idx i in
    if ltb idx (suc i)
    then (elim (get_elem? stages (suc i)) [
      | none ↦ rest
      | some s ↦ if is_final_review s then suc i else rest
    ])
    else length stages - 1

unfoldable pub terminal_index : List Stage → ℕ → ℕ
unfolding terminal_from
terminal_index stages idx = terminal_from stages idx (length stages - 2)

abbrev pub as_skipped : Stage → Stage
as_skipped s =
    if is_pending s.state
    then record s {
      state = skipped;
      evidence = codes "Skipped because a prior ordinary stage passed.";
    }
    else s

-- The `n` stages from position `lo` on, if they are pending, are skipped.
unfoldable pub skip_range : ℕ → ℕ → List Stage → List Stage
skip_range lo n [] = []
skip_range (suc lo) n (s ∷ stages) = s ∷ skip_range lo n stages
skip_range zero (suc n) (s ∷ stages) = as_skipped s ∷ skip_range zero n stages
skip_range zero zero (s ∷ stages) = s ∷ stages

-- Whether the loop skipped a stage.
unfoldable pub any_pending : ℕ → ℕ → List Stage → Bool
any_pending lo n [] = false
any_pending (suc lo) n (s ∷ stages) = any_pending lo n stages
any_pending zero (suc n) (s ∷ stages) = is_pending s.state || any_pending zero n stages
any_pending zero zero (s ∷ stages) = false

-- The status in which the record waits for the stage.
abbrev pub status_before : Stage → RecordStatus
status_before s =
    if is_review s.executor || is_final_review s then awaiting_final_review else running

-- max (idx + 1) (terminal_index stages idx): where the loop over the skipped stages ends.
unfoldable pub next_index : List Stage → ℕ → ℕ
next_index stages idx = max (suc idx) (terminal_index stages idx)

abbrev pub skip_events : Text → ℕ → Execution → List Event
skip_events now next r =
    if any_pending (suc r.current_stage_index) (next - suc r.current_stage_index) r.stages
    then append_to now (codes "stage_skip") (codes "Skipped ordinary stages") r.events
    else r.events

-- record.current_stage_index = next_idx, and the status that follows.
unfoldable pub move_to : Text → ℕ → Execution → Execution
move_to now next r = elim (get_elem? r.stages next) [
  | none ↦
      append_event now (codes "execution_completed") (codes "All stages completed.")
        (record r { current_stage_index = next; status = completed })
  | some s ↦ record r { current_stage_index = next; status = status_before s }
]

-- An ordinary stage has passed.
unfoldable pub advance_passed : Text → Execution → Execution
advance_passed now r =
    let next = next_index r.stages r.current_stage_index in
    let stages =
      skip_range (suc r.current_stage_index) (next - suc r.current_stage_index) r.stages in
    move_to now next (record r { stages = stages; events = skip_events now next r })

-- An ordinary stage has failed, or was skipped.
unfoldable pub advance_failed : Text → Execution → Execution
advance_failed now r =
    if leb (length r.stages) (suc r.current_stage_index)
    then append_event now (codes "execution_failed") (codes "All stages exhausted without passing.")
        (record r { current_stage_index = suc r.current_stage_index; status = RecordStatus.failed })
    else record r { current_stage_index = suc r.current_stage_index; status = running }

abbrev pub advance_review : Text → StageState → Execution → Execution
advance_review now passed r =
    append_event now (codes "execution_completed")
      (codes "Primary review passed — execution complete.") (record r { status = completed })
advance_review now _ r =
    append_event now (codes "execution_failed") (codes "Primary review failed — execution stopped.")
      (record r { status = RecordStatus.failed })

abbrev pub advance_ordinary : Text → StageState → Execution → Execution
advance_ordinary now passed r = advance_passed now r
advance_ordinary now _ r = advance_failed now r

-- The status and the index after the outcome of the current stage.
unfoldable pub advance : Text → Stage → StageState → Execution → Execution
advance now current outcome r =
    if is_review current.executor
    then advance_review now outcome r
    else advance_ordinary now outcome r
