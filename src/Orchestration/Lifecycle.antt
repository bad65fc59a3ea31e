-- ===== src/Orchestration/Lifecycle.antt =====
-- What a dispatched orchestration has behind it, and which workflow a confirmation starts.
use personal_ai_model.Prelude.{
  ◌≡◌, refl, ◌∙◌, sym, ap, subst, Bool, true, false, not, ◌&&◌, ◌||◌, Option, none, some, List, [],
  ◌∷◌, arith, inl, inr, ℕ, ltb, length,
}
use personal_ai_model.Prelude.Text.{Text, is_empty, text_or, contains, strip, starts_with, to_lower}
use personal_ai_model.Prelude.Result.{Result, ok, err, >>=-ok, raise_if, ok-injective, Result-cases}
use personal_ai_model.Core.{markdown_escape}
use personal_ai_model.Workflow.{
  Profile, fast, standard, Risk, auto, low, Workflow, WorkflowError, assess_profile, start_workflow,
  empty_request,
}
use personal_ai_model.Orchestration.{
  OrchestrationRecord, OrchestrationError, dispatched, orchestrate_start, orchestrate_confirm,
  orchestrate_dispatch, is_draft, is_write_mode, profile_to_risk, profile_name, not_draft, no_paths,
  empty_summary, workflow_or, empty_task, task_too_long, bad_limit,
}

pub data Call : Type 0 where
  confirm_call : Option Text → (workflow_id now : Text) → Call
  dispatch_call : Text → Call

abbrev pub kept_record :
    OrchestrationRecord → Result OrchestrationError OrchestrationRecord → OrchestrationRecord
kept_record r (ok r') = r'
kept_record r (err x) = r

abbrev pub first_of :
    Result OrchestrationError (OrchestrationRecord × Workflow)
    → Result OrchestrationError OrchestrationRecord
first_of (ok w) = ok w.0
first_of (err x) = err x

module _ (select_skills : Text → Profile → List Text) where
  unfoldable pub step : Call → OrchestrationRecord → OrchestrationRecord
  step (confirm_call summary workflow_id now) r =
      kept_record r (first_of (orchestrate_confirm select_skills summary workflow_id now r))
  step (dispatch_call path) r = kept_record r (orchestrate_dispatch path r)

  unfoldable pub run : List Call → OrchestrationRecord → OrchestrationRecord
  unfolding step
  run [] r = r
  run (c ∷ cs) r = run cs (step c r)

abbrev pub is_some : Option Text → Bool
is_some none = false
is_some (some t) = true

-- A draft, or a record with its workflow, its summary and the paths that its task needs.
abbrev pub is_sound_record : OrchestrationRecord → Bool
is_sound_record r =
    is_some r.workflow_id
    && is_some r.requirement_summary
    && not (is_write_mode r.access_mode r.task_type && is_empty r.allowed_paths)

abbrev pub IsSound : OrchestrationRecord → Type 0
IsSound r = (is_draft r.status || is_sound_record r) ≡ true

workflow_ok : (m : Result WorkflowError Workflow) (w : Workflow) → workflow_or m ≡ ok w → m ≡ ok w
workflow_ok (ok x) w h = ap ok (ok-injective h)
workflow_ok (err x) w h = cc

module _ (select_skills : Text → Profile → List Text) where
  confirm_ok-settled :
      (summary : Option Text) (workflow_id now : Text) (r : OrchestrationRecord)
      (w : OrchestrationRecord × Workflow)
      → orchestrate_confirm select_skills summary workflow_id now r ≡ ok w
      → is_sound_record w.0 ≡ true
  unfolding orchestrate_confirm
  confirm_ok-settled summary workflow_id now r w h =
      let (u1, c1, g1) = >>=-ok (raise_if (not (is_draft r.status)) not_draft) _ h in
      let (u2, c2, g2) =
        >>=-ok
          (raise_if (is_write_mode r.access_mode r.task_type && is_empty r.allowed_paths) no_paths)
          _ g1 in
      let (u3, c3, g3) =
        >>=-ok (raise_if (is_empty (markdown_escape (text_or summary r.task))) empty_summary) _
          g2 in
      let (v, c4, e) =
        >>=-ok
          (workflow_or (
            start_workflow select_skills workflow_id r.task
              (profile_to_risk (profile_name r.risk_profile)) now))
          _ g3 in
      ap (λ x. is_sound_record x.0) (sym (ok-injective e)) ∙ ground (arith, c2)

  step-IsSound : (c : Call) (r : OrchestrationRecord) → IsSound r → IsSound (step select_skills c r)
  unfolding step orchestrate_dispatch
  step-IsSound (confirm_call summary workflow_id now) r s =
      elim (Result-cases (orchestrate_confirm select_skills summary workflow_id now r)) [
        | inl (x, e) ↦ rw (e) s
        | inr (w, e) ↦ rw (e) (ground (arith, confirm_ok-settled summary workflow_id now r w e))
      ]
  step-IsSound (dispatch_call path) r s = ground arith

  run-IsSound :
      (cs : List Call) (r : OrchestrationRecord) → IsSound r → IsSound (run select_skills cs r)
  unfolding run
  run-IsSound [] r s = s
  run-IsSound (c ∷ cs) r s = run-IsSound cs _ (step-IsSound c r s)

  start-IsSound :
      (id task : Text) (limit : ℕ) (paths : List Text) (access_mode : Text)
      (r : OrchestrationRecord)
      → orchestrate_start id task limit paths access_mode ≡ ok r
      → IsSound r
  unfolding orchestrate_start
  start-IsSound id task limit paths access_mode r h =
      let (u1, c1, g1) = >>=-ok (raise_if (is_empty (markdown_escape task)) empty_task) _ h in
      let (u2, c2, g2) =
        >>=-ok (raise_if (ltb 2000 (length (markdown_escape task))) task_too_long) _ g1 in
      let (u3, c3, e) = >>=-ok (raise_if (ltb limit 1 || ltb 5 limit) bad_limit) _ g2 in
      subst IsSound (ok-injective e) refl

  IsSound-dispatched :
      (r : OrchestrationRecord) → IsSound r → r.status ≡ dispatched → is_sound_record r ≡ true
  IsSound-dispatched r s h = ground arith

  -- An orchestration that any calls have dispatched has been confirmed: it has a workflow and a summary of the
  -- requirement, and, if its task writes, paths that were approved.
  pub run-dispatched :
      (id task : Text) (limit : ℕ) (paths : List Text) (access_mode : Text)
      (r : OrchestrationRecord) (cs : List Call)
      → orchestrate_start id task limit paths access_mode ≡ ok r
      → (run select_skills cs r).status ≡ dispatched
      → is_sound_record (run select_skills cs r) ≡ true
  run-dispatched id task limit paths access_mode r cs h =
      IsSound-dispatched (run select_skills cs r)
        (run-IsSound cs r (start-IsSound id task limit paths access_mode r h))

  standard_risk : profile_to_risk (profile_name standard) ≡ low
  unfolding profile_to_risk strip contains starts_with to_lower
  standard_risk = refl

  assess_profile-low : (t : Text) → assess_profile t auto ≡ standard → assess_profile t low ≡ fast
  unfolding assess_profile
  assess_profile-low t h = ground arith

  start_workflow-profile :
      (id t : Text) (risk : Risk) (now : Text) (w : Workflow)
      → start_workflow select_skills id t risk now ≡ ok w
      → w.profile ≡ assess_profile (markdown_escape t) risk
  unfolding start_workflow
  start_workflow-profile id t risk now w h =
      let (u, c, e) = >>=-ok (raise_if (is_empty (markdown_escape t)) empty_request) _ h in
      ap (λ x. x.profile) (sym (ok-injective e))

  -- The confirmation of a task that was assessed as standard starts a fast workflow, which has neither a design
  -- approval nor a review.
  pub orchestrate_confirm-fast :
      (summary : Option Text) (workflow_id now : Text) (r : OrchestrationRecord)
      (w : OrchestrationRecord × Workflow)
      → r.risk_profile ≡ standard
      → assess_profile (markdown_escape r.task) auto ≡ standard
      → orchestrate_confirm select_skills summary workflow_id now r ≡ ok w
      → w.1.profile ≡ fast
  unfolding orchestrate_confirm
  orchestrate_confirm-fast summary workflow_id now r w p a h =
      let (u1, c1, g1) = >>=-ok (raise_if (not (is_draft r.status)) not_draft) _ h in
      let (u2, c2, g2) =
        >>=-ok
          (raise_if (is_write_mode r.access_mode r.task_type && is_empty r.allowed_paths) no_paths)
          _ g1 in
      let (u3, c3, g3) =
        >>=-ok (raise_if (is_empty (markdown_escape (text_or summary r.task))) empty_summary) _
          g2 in
      let (v, c4, e) =
        >>=-ok
          (workflow_or (
            start_workflow select_skills workflow_id r.task
              (profile_to_risk (profile_name r.risk_profile)) now))
          _ g3 in
      let started : start_workflow select_skills workflow_id r.task low now ≡ ok v =
        workflow_ok _ v (rw (p, standard_risk) at c4) in
      ap (λ x. x.1.profile) (sym (ok-injective e))
      ∙ start_workflow-profile workflow_id r.task low now v started
      ∙ assess_profile-low (markdown_escape r.task) a
