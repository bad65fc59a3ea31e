-- ===== src/Orchestration/Tests.antt =====
-- A small orchestration from its draft to its dispatch.
use personal_ai_model.Prelude.{length, ◌≤◌, arith, ◌≡◌, refl, none, List, [], ◌∷◌, true, false}
use personal_ai_model.Prelude.Text.{
  ◌==◌, Text, codes, text_discrete, strip, without_nul, contains, starts_with, to_lower,
}
use personal_ai_model.Prelude.Result.{ok}
use personal_ai_model.Core.{markdown_escape}
use personal_ai_model.ModelPolicy.{is_model_allowed, normalize_model_id}
use personal_ai_model.Workflow.{
  Profile, Workflow, fast, standard, auto, new_workflow, start_workflow, assess_profile, any_term,
}
use personal_ai_model.Orchestration.{
  OrchestrationRecord, dispatched, orchestrate_start, orchestrate_confirm, orchestrate_dispatch,
  new_orchestration, as_confirmed, classify_task, profile_to_risk,
}
use personal_ai_model.Orchestration.Lifecycle.{
  Call, confirm_call, dispatch_call, run, step, is_sound_record, run-dispatched,
  orchestrate_confirm-fast,
}
use personal_ai_model.Prelude.Keyed.{find}
use personal_ai_model.Health.{Health, is_healthy, error_count_of, entry_or_new}
use personal_ai_model.Orchestration.Preview.{
  Listed, preview_routes, is_final_review_route, preview_routes-unhealthy, is_seen, working_routes,
  keep_routes,
}

abbrev skills : Text → Profile → List Text
skills request p = []

abbrev drafted : OrchestrationRecord
drafted = new_orchestration (codes "orch-1") (codes "tidy up") [] (codes "read-only")

abbrev sent : List Call
sent = confirm_call none (codes "wf-1") (codes "t1") ∷ dispatch_call (codes "handoff.md") ∷ []

started : orchestrate_start (codes "orch-1") (codes "tidy up") 3 [] (codes "read-only") ≡ ok drafted
unfolding orchestrate_start markdown_escape strip without_nul
started = refl

done : (run skills sent drafted).status ≡ dispatched
unfolding run step orchestrate_confirm orchestrate_dispatch start_workflow markdown_escape strip
    without_nul text_discrete classify_task any_term contains starts_with to_lower profile_to_risk
    assess_profile
done = refl

run-dispatched_example : is_sound_record (run skills sent drafted) ≡ true
run-dispatched_example =
    run-dispatched skills (codes "orch-1") (codes "tidy up") 3 [] (codes "read-only") drafted sent
      started done

assessed : assess_profile (markdown_escape (codes "tidy up")) auto ≡ standard
unfolding assess_profile any_term contains starts_with to_lower markdown_escape strip without_nul
assessed = refl

assessed_draft : drafted.risk_profile ≡ standard
unfolding assess_profile any_term contains starts_with to_lower
assessed_draft = refl

abbrev workflow : Workflow
workflow = new_workflow [] (codes "wf-1") (codes "tidy up") fast (codes "t1")

confirmed_now :
    orchestrate_confirm skills none (codes "wf-1") (codes "t1") drafted
    ≡ ok (as_confirmed (codes "tidy up") workflow drafted, workflow)
unfolding orchestrate_confirm start_workflow markdown_escape strip without_nul text_discrete
    classify_task any_term contains starts_with to_lower profile_to_risk assess_profile
confirmed_now = refl

orchestrate_confirm-fast_example : workflow.profile ≡ fast
orchestrate_confirm-fast_example =
    orchestrate_confirm-fast skills none (codes "wf-1") (codes "t1") drafted
      (as_confirmed (codes "tidy up") workflow drafted, workflow) assessed_draft assessed
      confirmed_now

abbrev failing : Listed
failing = record {
  provider = codes "local-ollama";
  model = codes "llama3";
  cost_tier = codes "local";
  usage_tier = [];
  usage_class = [];
}

no_review : is_final_review_route failing ≡ false
unfolding text_discrete
no_review = refl

not_paid : (failing.cost_tier == codes "paid") ≡ false
unfolding text_discrete
not_paid = refl

abbrev failed_thrice : List Health
failed_thrice =
    record {
      provider_id = codes "local-ollama";
      error_count = 3;
      last_error = none;
      healthy = false;
      updated_at = none;
    }
    ∷ []

unhealthy : is_healthy failing.provider failed_thrice ≡ false
unfolding is_healthy error_count_of entry_or_new find text_discrete markdown_escape
unhealthy = refl

few : length (working_routes failed_thrice (failing ∷ [])) ≤ 4
unfolding keep_routes is_healthy error_count_of entry_or_new find text_discrete markdown_escape
    is_model_allowed normalize_model_id contains
few = omega arith

preview_routes-unhealthy_example :
    is_seen failing (preview_routes failed_thrice (failing ∷ [])) ≡ true
preview_routes-unhealthy_example =
    preview_routes-unhealthy failed_thrice (failing ∷ []) [] [] failing refl unhealthy no_review
      not_paid few
