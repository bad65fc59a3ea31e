-- ===== src/Execution/Claim.antt =====
-- `claim_execution_stage` of execution.py.
use personal_ai_model.Prelude.{
  ℕ, ◌+◌, ◌*◌, Bool, false, not, ◌&&◌, ◌||◌, Option, none, some, List, [], ltb, get_elem?, set,
  if◌then◌else◌,
}
use personal_ai_model.Prelude.Text.{Text, codes, ◌==◌, truthy, text_or}
use personal_ai_model.Prelude.Result.{Result, ok, err, ◌>>=◌, ◌>>◌, raise_if}
use personal_ai_model.ModelPolicy.{is_model_allowed}
use personal_ai_model.Health.{Health, is_healthy}
use personal_ai_model.Execution.{
  Stage, Execution, ExecutionError, kill_switch_active, invalid_lease_seconds, no_stage,
  not_current, already_claimed, not_pending, prohibited_model, unhealthy_provider, capacity_blocked,
  pending, claimed, running, is_claimed, is_pending, is_live, or_raise, append_event, about_stage,
  save, second,
}

-- What a claim reads besides the record: the stop flag, the clock, the health file, and the time
-- until which provider_capacity.py has a route blocked.
pub record Env : Type 0 where
  pub stopped : Bool
  pub now : ℕ
  pub stamp : Text
  pub health : List Health
  pub blocked_until : Text → Text → Option ℕ

-- A claim whose lease has run out is taken back first.
unfoldable pub release_expired : ℕ → Stage → Result ExecutionError Stage
release_expired now s =
    if is_claimed s.state && truthy s.lease_id
    then (if is_live s.lease_expires_at now
        then err already_claimed
        else ok (record s { state = pending; lease_id = none; lease_expires_at = none }))
    else ok s

-- blocked_until > time.time()
abbrev pub is_blocked : Option ℕ → ℕ → Bool
is_blocked none now = false
is_blocked (some t) now = ltb now t

-- The route policy, the health and the capacity of the stage's provider, at claim time.
unfoldable pub check_route : Env → Stage → Result ExecutionError (Unit {0})
check_route env s =
    if truthy s.provider && truthy s.model
    then (do
      let provider = text_or s.provider []
      let model = text_or s.model []
      raise_if (not (is_model_allowed model)) prohibited_model
      raise_if (not (is_healthy provider env.health)) unhealthy_provider
      raise_if (is_blocked (env.blocked_until provider model) env.now) capacity_blocked)
    else ok tt

-- What a claim writes into the stage.
abbrev pub as_claimed : Text → ℕ → Stage → Stage
as_claimed lease expires s = record s {
  state = claimed;
  lease_id = some lease;
  lease_expires_at = some expires;
  attempt_count = 1;
}

abbrev pub claimed_record : Env → Stage → Execution → Execution
claimed_record env s r =
    let written = record r { status = running; stages = set r.stages r.current_stage_index s } in
    let detail = about_stage s (codes " claimed with lease") in
    save env.stamp (append_event env.stamp (codes "stage_claimed") detail written)

-- The stage with its new lease, and the record that is saved.
unfoldable pub claim_execution_stage :
    Env → Text → ℕ → Text → Execution → Result ExecutionError (Stage × Execution)
claim_execution_stage env stage_id lease_seconds lease r = do
  raise_if env.stopped kill_switch_active
  raise_if (ltb lease_seconds 60 || ltb 86400 lease_seconds) invalid_lease_seconds
  current ← or_raise (get_elem? r.stages r.current_stage_index) no_stage
  raise_if (not (current.id == stage_id)) not_current
  free ← release_expired env.now current
  raise_if (not (is_pending free.state)) not_pending
  check_route env free
  let s = as_claimed lease (env.now + lease_seconds * second) free
  ok (s, claimed_record env s r)
