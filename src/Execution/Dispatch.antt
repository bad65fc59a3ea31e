-- ===== src/Execution/Dispatch.antt =====
-- `mark_execution_dispatched`, `revert_execution_dispatch` and `reconcile_dispatched_handoffs` of
-- execution.py. The files under handoffs/ are an argument.
use personal_ai_model.Prelude.{
  ℕ, zero, suc, Bool, false, not, ◌&&◌, Option, none, some, List, [], ◌∷◌, get_elem?, set,
  if◌then◌else◌,
}
use personal_ai_model.Prelude.Text.{Text, codes, ◌==◌, ◌==?◌, truthy, is_empty}
use personal_ai_model.Prelude.Result.{Result, ok, ◌>>=◌, ◌>>◌, raise_if}
use personal_ai_model.Execution.{
  Stage, Execution, ExecutionError, no_stage, not_current, lease_mismatch, not_claimed, no_evidence,
  claimed, dispatched, running, is_claimed, is_dispatched, or_raise, append_event, append_to, Event,
  about_stage, save,
}
use personal_ai_model.Execution.Artifacts.{safe_artifact_path}
use personal_ai_model.Execution.Outcome.{clean_evidence}

-- The arguments of a dispatch.
pub record Dispatch : Type 0 where
  pub stage_id : Text
  pub lease_id : Text
  pub evidence : Text
  pub artifact_path : Option Text
  pub adapter_target : Option Text
  pub adapter_token : Option Text

-- A value that is given replaces the old one.
abbrev pub or_given : Option Text → Option Text → Option Text
or_given given old = if truthy given then given else old

abbrev pub as_dispatched : Dispatch → Text → Text → Option Text → Stage → Stage
as_dispatched d dispatch now path s = record s {
  state = dispatched;
  dispatch_id = some dispatch;
  dispatched_at = some now;
  evidence = clean_evidence d.evidence;
  artifact_path = path;
  adapter_target = or_given d.adapter_target s.adapter_target;
  adapter_token = or_given d.adapter_token s.adapter_token;
}

-- A claimed stage is dispatched under the fresh id `dispatch`.
unfoldable pub dispatch_stage :
    List Text → (Text → List Text) → Text → Text → Dispatch → Stage → Result ExecutionError Stage
dispatch_stage root resolve now dispatch d s = do
  raise_if (not (is_claimed s.state)) not_claimed
  raise_if (is_empty (clean_evidence d.evidence)) no_evidence
  path ← safe_artifact_path root resolve d.artifact_path
  ok (as_dispatched d dispatch now path s)

abbrev pub dispatched_record : Text → Stage → Execution → Execution
dispatched_record now s r =
    let detail = about_stage s (codes " is awaiting verified worker result") in
    let written = record r { status = running; stages = set r.stages r.current_stage_index s } in
    save now (append_event now (codes "stage_dispatched") detail written)

abbrev pub dispatch_current :
    List Text
    → (Text → List Text)
    → Text
    → Text
    → Dispatch
    → Stage
    → Execution
    → Result ExecutionError (Stage × Execution)
dispatch_current root resolve now dispatch d current r = do
  s ← dispatch_stage root resolve now dispatch d current
  ok (s, dispatched_record now s r)

-- The stage as it stands, and the record; a stage dispatched before is answered as it is.
unfoldable pub mark_execution_dispatched :
    List Text
    → (Text → List Text)
    → Text
    → Text
    → Dispatch
    → Execution
    → Result ExecutionError (Stage × Execution)
mark_execution_dispatched root resolve now dispatch d r = do
  current ← or_raise (get_elem? r.stages r.current_stage_index) no_stage
  raise_if (not (current.id == d.stage_id)) not_current
  raise_if (not (current.lease_id ==? some d.lease_id)) lease_mismatch
  if is_dispatched current.state && truthy current.dispatch_id
      then ok (current, r)
      else dispatch_current root resolve now dispatch d current r

abbrev pub as_reverted : Stage → Stage
as_reverted s = record s {
  state = claimed;
  dispatch_id = none;
  dispatched_at = none;
  adapter_target = none;
  adapter_token = none;
}

abbrev pub reverted_record : Text → Stage → Execution → Execution
reverted_record now s r =
    let written = record r { stages = set r.stages r.current_stage_index (as_reverted s) } in
    save now (
      append_event now (codes "stage_dispatch_reverted")
        (codes "Reverted stage dispatch due to package creation failure") written)

-- The handoff package was not written: the stage goes back to claimed. Anything else is left alone.
unfoldable pub revert_execution_dispatch : Text → Text → Text → Execution → Execution
revert_execution_dispatch now stage_id lease_id r =
    elim (get_elem? r.stages r.current_stage_index) [
      | none ↦ r
      | some s ↦
          if (s.id == stage_id) && (s.lease_id ==? some lease_id) && is_dispatched s.state
          then reverted_record now s r
          else r
    ]

-- What a handoff package that can be read says.
pub record Package : Type 0 where
  pub dispatch_id : Option Text
  pub adapter_token : Option Text

abbrev pub is_valid : Option Package → Stage → Bool
is_valid none s = false
is_valid (some p) s = (p.dispatch_id ==? s.dispatch_id) && (p.adapter_token ==? s.adapter_token)

-- stage.state == "dispatched" and stage.adapter_target
abbrev pub is_handed_off : Stage → Bool
is_handed_off s = is_dispatched s.state && truthy s.adapter_target

abbrev pub is_orphan : (Stage → Option Package) → Stage → Bool
is_orphan handoff s = is_handed_off s && not (is_valid (handoff s) s)

unfoldable pub reconcile_stages : (Stage → Option Package) → List Stage → List Stage
reconcile_stages handoff [] = []
reconcile_stages handoff (s ∷ stages) =
    (if is_orphan handoff s then as_reverted s else s) ∷ reconcile_stages handoff stages

-- One entry for each stage that is reverted.
unfoldable pub reconcile_events :
    Text → (Stage → Option Package) → List Stage → List Event → List Event
reconcile_events now handoff [] events = events
reconcile_events now handoff (s ∷ stages) events =
    let appended =
      append_to now (codes "stage_dispatch_reconciled_revert")
        (codes "missing/corrupt handoff package, reverted state to claimed") events in
    reconcile_events now handoff stages (if is_orphan handoff s then appended else events)

unfoldable pub count_orphans : (Stage → Option Package) → List Stage → ℕ
count_orphans handoff [] = 0
count_orphans handoff (s ∷ stages) =
    if is_orphan handoff s then suc (count_orphans handoff stages) else count_orphans handoff stages

unfoldable pub count_handed_off : List Stage → ℕ
count_handed_off [] = 0
count_handed_off (s ∷ stages) =
    if is_handed_off s then suc (count_handed_off stages) else count_handed_off stages

abbrev pub reconciled_record : Text → (Stage → Option Package) → Execution → Execution
reconciled_record now handoff r = save now (record r {
  stages = reconcile_stages handoff r.stages;
  events = reconcile_events now handoff r.stages r.events;
})

-- One record of the startup reconciliation; `handoff` reads the file of a stage, and is `none` for
-- a file that is missing or is not JSON. The record is saved if a stage was reverted.
unfoldable pub reconcile_record : Text → (Stage → Option Package) → Execution → Execution
reconcile_record now handoff r = elim (count_orphans handoff r.stages) [
  | zero ↦ r
  | suc _ ↦ reconciled_record now handoff r
]
