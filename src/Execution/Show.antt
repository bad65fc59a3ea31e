-- ===== src/Execution/Show.antt =====
-- `_serialize_stage`, `show_execution` and `next_execution_stage` of execution.py: what a reader gets. A
-- serialised stage is the stage with the fields of its dict.
use personal_ai_model.Prelude.{
  ◌⊎◌, ◌&&◌, not, ℕ, ◌≡◌, refl, inl, inr, Bool, true, false, Option, none, some, List, [], ◌∷◌, map,
  arith, get_elem?, length, if◌then◌else◌, All, Option-cases,
}
use personal_ai_model.Prelude.Text.{Text, codes, truthy, ◌==?◌}
use personal_ai_model.Prelude.Result.{ok}
use personal_ai_model.Execution.{Stage, Execution, RecordStatus, completed}
use personal_ai_model.Execution.PlanExecution.{Inputs, plan_execution}
use personal_ai_model.Execution.Steps.{Call, run}
use personal_ai_model.Execution.Planned.{plan_execution-reviewed}

-- "[REDACTED]" if (redact_token and stage.adapter_token) else stage.adapter_token
unfoldable pub serialize_stage : Bool → Stage → Stage
serialize_stage redact_token s = record s {
  adapter_token =
      if redact_token
      then (if truthy s.adapter_token then some (codes "[REDACTED]") else s.adapter_token)
      else s.adapter_token;
}

-- _serialize(record), and stage.pop("lease_id", None) of every stage.
abbrev pub shown_stage : Stage → Stage
shown_stage s = record (serialize_stage true s) { lease_id = none }

unfoldable pub show_execution : Execution → Execution
show_execution r = record r { stages = map shown_stage r.stages }

-- The answer of next_execution_stage.
pub record NextStage : Type 0 where
  pub status : RecordStatus
  pub stage : Option Stage
  pub stage_count : ℕ
  pub completed : Bool

unfoldable pub next_execution_stage : Execution → NextStage
next_execution_stage r = elim (get_elem? r.stages r.current_stage_index) [
  | none ↦ record {
    status = r.status;
    stage = none;
    stage_count = length r.stages;
    completed = true;
  }
  | some s ↦ record {
    status = r.status;
    stage = some (serialize_stage true s);
    stage_count = length r.stages;
    completed = false;
  }
]

-- Whether a token stands there that is not the mark.
abbrev pub shows_token : Stage → Bool
shows_token s = truthy s.adapter_token && not (s.adapter_token ==? some (codes "[REDACTED]"))

abbrev pub stage_shows_token : Option Stage → Bool
stage_shows_token none = false
stage_shows_token (some s) = shows_token s

shows_token-serialize_stage : (s : Stage) → shows_token (serialize_stage true s) ≡ false
unfolding serialize_stage
shows_token-serialize_stage s = ground arith

-- A shown stage has no lease id and shows no token.
abbrev pub IsRedacted : Stage → Type 0
IsRedacted s = (s.lease_id ≡ none) × (shows_token s ≡ false)

map-IsRedacted : (stages : List Stage) → All IsRedacted (map shown_stage stages)
map-IsRedacted [] = tt
map-IsRedacted (s ∷ stages) = ((refl, shows_token-serialize_stage s), map-IsRedacted stages)

-- No reader is given an adapter token: neither in the whole record, which hides the lease ids too, nor
-- in the next stage.
pub shown-IsRedacted :
    (r : Execution)
    → All IsRedacted (show_execution r).stages
      × (stage_shows_token (next_execution_stage r).stage ≡ false)
unfolding next_execution_stage show_execution
shown-IsRedacted r =
    (map-IsRedacted r.stages, next_hidden (Option-cases (get_elem? r.stages r.current_stage_index)))
  where
    next_hidden :
        (get_elem? r.stages r.current_stage_index ≡ none)
          ⊎ ((s : Stage) × (get_elem? r.stages r.current_stage_index ≡ some s))
        → stage_shows_token (next_execution_stage r).stage ≡ false
    next_hidden (inl e) = rw (next_execution_stage, e) refl
    next_hidden (inr (s, e)) = rw (next_execution_stage, e) (shows_token-serialize_stage s)

module _ (classify : Text → Text) (is_protected : Text → Bool) (is_alnum : ℕ → Bool) where
  -- Of an execution that its review has completed, the next stage is still given, as that review, and
  -- the flag says that it is not completed.
  pub next_execution_stage-reviewed :
      (i : Inputs) (orchestration_id : Text) (r : Execution) (root : List Text)
      (resolve : Text → List Text) (cs : List Call)
      → i.existing ≡ none
      → plan_execution classify is_protected is_alnum i orchestration_id ≡ ok r
      → (run root resolve cs r).status ≡ completed
      → (next_execution_stage (run root resolve cs r)).completed ≡ false
  unfolding next_execution_stage
  next_execution_stage-reviewed i orchestration_id r root resolve cs new e h =
      let review =
        plan_execution-reviewed classify is_protected is_alnum i orchestration_id r root resolve cs
          new e h in
      rw (next_execution_stage, review.1) refl
