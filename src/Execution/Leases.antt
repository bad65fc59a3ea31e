-- ===== src/Execution/Leases.antt =====
-- Who may work on a stage: a lease that runs keeps every other worker out, where no two calls on the
-- record overlap. The code takes no lock for a claim: Race is about calls that do overlap.
use personal_ai_model.Prelude.{
  ℕ, zero, suc, ◌+◌, ◌*◌, ◌<◌, ◌≡◌, ◌≢◌, refl, sym, subst, inl, inr, true, false, ◌||◌, Option,
  some, List, [], ◌∷◌, arith, get_elem?, length, Bool-cases, get-set-same,
}
use personal_ai_model.Prelude.Text.{Text, truthy}
use personal_ai_model.Prelude.Result.{ok}
use personal_ai_model.Execution.{
  Stage, Execution, append_event, save, is_claimed, is_dispatched, is_pending, second,
}
use personal_ai_model.Execution.Claim.{Env, as_claimed, release_expired, claim_execution_stage}
use personal_ai_model.Execution.Outcome.{Report, check_current}
use personal_ai_model.Execution.Dispatch.{
  Dispatch, Package, dispatch_stage, is_orphan, as_reverted, reconcile_stages,
}
use personal_ai_model.Execution.Recovery.{place_of, recover_stage, is_stale, is_timed_out}
use personal_ai_model.Execution.Cases.{
  claim_inversion, claim_cases, record_cases, dispatch_cases, revert_cases, reconcile_cases,
  recover_cases,
}
use personal_ai_model.Execution.Completed.{recover_place-kept, get-recover_stages}
use personal_ai_model.Execution.Steps.{
  Call, claim, report, dispatch, revert, reconcile, recover, step, run,
}

module _ (lease : Text) (expires : ℕ) where
  -- The stage is worked on under the lease.
  abbrev pub IsHeld : Stage → Type 0
  IsHeld s =
      (s.lease_id ≡ some lease)
      × (s.lease_expires_at ≡ some expires)
      × ((is_claimed s.state || is_dispatched s.state) ≡ true)

  abbrev pub Held : Execution → Type 0
  Held r = (s : Stage) × (get_elem? r.stages r.current_stage_index ≡ some s) × IsHeld s

  -- A call before the lease runs out, of anyone but its holder's report.
  abbrev pub Foreign : Call → Type 0
  Foreign (claim env stage_id lease_seconds other) = env.now < expires
  Foreign (report now p) = p.lease_id ≢ lease
  Foreign (recover now stamp) = now < expires
  Foreign _ = Unit

  abbrev pub ForeignAll : List Call → Type 0
  ForeignAll [] = Unit
  ForeignAll (c ∷ cs) = Foreign c × ForeignAll cs

  module _ (named : truthy (some lease) ≡ true) where
    release_expired-held :
        (now : ℕ) (s free : Stage)
        → IsHeld s
        → now < expires
        → release_expired now s ≡ ok free
        → ¬ (is_pending free.state ≡ true)
    unfolding release_expired
    release_expired-held now s free h lt e f = ground arith

    current_IsHeld :
        (r : Execution) (current : Stage)
        → Held r
        → get_elem? r.stages r.current_stage_index ≡ some current
        → IsHeld current
    current_IsHeld r current (s, f, h) e = ground arith

    Held-excludes :
        (env : Env) (stage_id other : Text) (lease_seconds : ℕ) (r : Execution)
        (x : Stage × Execution)
        → Held r
        → env.now < expires
        → ¬ (claim_execution_stage env stage_id lease_seconds other r ≡ ok x)
    Held-excludes env stage_id other lease_seconds r x h lt e =
        let read = claim_inversion env stage_id other lease_seconds r x e in
        let held : IsHeld read.0 = current_IsHeld r read.0 h read.2 in
        release_expired-held env.now read.0 read.1 held lt read.3 read.4

    check_current-held :
        (p : Report) (s : Stage) → IsHeld s → p.lease_id ≢ lease → ¬ (check_current p s ≡ ok tt)
    unfolding check_current
    check_current-held p s h other e = ground arith

    dispatch_stage-IsHeld :
        (root : List Text) (resolve : Text → List Text) (now id : Text) (d : Dispatch) (s v : Stage)
        → IsHeld s
        → dispatch_stage root resolve now id d s ≡ ok v
        → IsHeld v
    unfolding dispatch_stage
    dispatch_stage-IsHeld root resolve now id d s v h e = ground arith

    recover_stage-held :
        (now : ℕ) (s : Stage)
        → IsHeld s
        → now < expires
        → (recover_stage now s ≡ s) × (is_timed_out now s ≡ false)
    unfolding recover_stage is_stale is_timed_out
    recover_stage-held now s h lt = ground arith

    get-reconcile-IsHeld :
        (handoff : Stage → Option Package) (stages : List Stage) (i : ℕ) (s : Stage)
        → get_elem? stages i ≡ some s
        → IsHeld s
        → (v : Stage) × (get_elem? (reconcile_stages handoff stages) i ≡ some v) × IsHeld v
    unfolding reconcile_stages
    get-reconcile-IsHeld handoff [] i s e h = cc
    get-reconcile-IsHeld handoff (x ∷ stages) (suc i) s e h =
        get-reconcile-IsHeld handoff stages i s e h
    get-reconcile-IsHeld handoff (x ∷ stages) zero s e h = elim (Bool-cases (is_orphan handoff x)) [
      | inl f ↦ (as_reverted x, rw (f) refl, ground arith)
      | inr f ↦ (x, rw (f) refl, ground arith)
    ]

    module _ (root : List Text) (resolve : Text → List Text) where
      step-Held : (c : Call) (r : Execution) → Foreign c → Held r → Held (step root resolve c r)
      unfolding step append_event save
      step-Held (claim env stage_id lease_seconds other) r lt h =
          claim_cases Held r h env stage_id lease_seconds other λ current free e f g.
            absurd (release_expired-held env.now current free (current_IsHeld r current h e) lt f g)
      step-Held (report now p) r other h =
          record_cases Held r h root resolve now p λ current s outcome e f _.
            absurd (check_current-held p current (current_IsHeld r current h e) other f)
      step-Held (dispatch now id d) r _ h =
          dispatch_cases Held r h root resolve now id d λ current s e f. (
            s,
            get-set-same r.stages r.current_stage_index s current e,
            dispatch_stage-IsHeld root resolve now id d current s (current_IsHeld r current h e) f,
          )
      step-Held (revert now stage_id lease_id) r _ h =
          revert_cases Held r h now stage_id lease_id λ current e f. (
            as_reverted current,
            get-set-same r.stages r.current_stage_index (as_reverted current) current e,
            ground (arith, current_IsHeld r current h e),
          )
      step-Held (reconcile now handoff) r _ h =
          reconcile_cases Held r h now handoff
            (get-reconcile-IsHeld handoff r.stages r.current_stage_index h.0 h.1 h.2)
      step-Held (recover now stamp) r lt h = recover_cases Held r h now stamp (
        h.0,
        ground (
          arith,
          recover_place-kept now (length r.stages) 0 r.current_stage_index r.stages (place_of r)
              h.0,
          get-recover_stages now r.stages r.current_stage_index h.0,
          recover_stage-held now h.0,
          h.1,
          h.2,
        ),
        h.2,
      )

      -- Until a lease runs out, the stage stays claimed or dispatched under it, whatever others call:
      -- claims, dispatches, reverts, recoveries, and reports under another lease.
      pub run-Held :
          (cs : List Call) (r : Execution) → ForeignAll cs → Held r → Held (run root resolve cs r)
      unfolding run
      run-Held [] r foreign h = h
      run-Held (c ∷ cs) r (first, rest) h =
          run-Held cs (step root resolve c r) rest (step-Held c r first h)

-- A claim that succeeds leaves its stage held.
claim-Held :
    (env : Env) (stage_id lease : Text) (lease_seconds : ℕ) (r written : Execution) (s : Stage)
    → claim_execution_stage env stage_id lease_seconds lease r ≡ ok (s, written)
    → Held lease (env.now + lease_seconds * second) written
unfolding append_event save
claim-Held env stage_id lease lease_seconds r written s e =
    let read = claim_inversion env stage_id lease lease_seconds r (s, written) e in
    let kept = as_claimed lease (env.now + lease_seconds * second) read.1 in
    subst (Held lease (env.now + lease_seconds * second)) (sym read.5)
      (kept, get-set-same r.stages r.current_stage_index kept read.0 read.2, (refl, refl, refl))

module _ (root : List Text) (resolve : Text → List Text) where
  -- Where no two calls on the record overlap, so that each loads what the one before it saved: after a
  -- successful claim under a lease with a name, any claim before the lease runs out is refused,
  -- whatever came between the two: claims and recoveries before the lease runs out, reports
  -- under another lease, dispatches, reverts and reconciliations.
  pub claim_exclusive :
      (env later : Env) (stage_id other_id lease other : Text) (lease_seconds other_seconds : ℕ)
      (r written : Execution) (s : Stage) (x : Stage × Execution) (cs : List Call)
      → truthy (some lease) ≡ true
      → claim_execution_stage env stage_id lease_seconds lease r ≡ ok (s, written)
      → ForeignAll lease (env.now + lease_seconds * second) cs
      → later.now < env.now + lease_seconds * second
      → ¬ (
          claim_execution_stage later other_id other_seconds other (run root resolve cs written)
          ≡ ok x)
  claim_exclusive env later stage_id other_id lease other lease_seconds other_seconds r written s x
        cs named e foreign lt f =
      Held-excludes lease (env.now + lease_seconds * second) named later other_id other
        other_seconds (run root resolve cs written) x
        (run-Held lease (env.now + lease_seconds * second) named root resolve cs written foreign
          (claim-Held env stage_id lease lease_seconds r written s e))
        lt f
