-- ===== src/Policy/Tests.antt =====
-- Runs of the approval queue.
use personal_ai_model.Prelude.{◌≡◌, refl, Option, none, some, List, [], ◌∷◌, true, false}
use personal_ai_model.Prelude.Text.{Text, codes, text_discrete, starts_with, optional_discrete}
use personal_ai_model.Prelude.Result.{ok, err}
use personal_ai_model.Prelude.Keyed.{find, replace}
use personal_ai_model.Core.{markdown_escape}
use personal_ai_model.Policy.{
  Approval, Status, approved, reserved, Scope, Request, id_of, request_action_approval,
  approve_action_request, consume_action_approval, as_consumed, wrong_status, is_sensitive,
  requires_external_scope, one_of, validate_approval_scope, validate_identity, new_entry,
}
use personal_ai_model.Policy.Lifecycle.{
  request, approve, consume, step, run, Moved, step-Moved, consume_once,
}
use personal_ai_model.Policy.Consent.{
  Approves, Granted, run-needs_approve, consume_in_scope, consume_empty_target,
}

abbrev same : Text → Text
same t = t

abbrev entry : Status → Option Text → Text → Approval
entry status token target = record {
  id = codes "a1";
  timestamp = codes "2026-01-01";
  expires_at = none;
  user_id = some (codes "user_default");
  account_id = some (codes "acct");
  connector_scope = some (codes "mail");
  action = codes "browser_submit";
  target = target;
  canonical_target = target;
  reason = codes "pay";
  idempotency_key = some (codes "a1");
  before_evidence = none;
  after_evidence = none;
  reservation_token = token;
  status = status;
  approved_at = none;
  reserved_at = none;
  consumed_at = none;
  updated_at = none;
  error_reason = none;
}

abbrev held : List Approval
held = entry reserved (some (codes "tok")) (codes "form") ∷ []

abbrev scope : Text → Scope
scope target = record {
  action = codes "browser_submit";
  target = target;
  user_id = none;
  account_id = some (codes "acct");
  connector_scope = some (codes "mail");
  idempotency_key = none;
  reservation_token = some (codes "tok");
  require_token = false;
}

abbrev wanted : Request
wanted = record {
  action = codes "delete_file";
  target = codes "x";
  reason = codes "clean";
  user_id = codes "user_default";
  account_id = none;
  connector_scope = none;
  idempotency_key = none;
  before_evidence = none;
  expires_at = none;
}

abbrev done : Approval
done = as_consumed none (codes "now") (entry reserved (some (codes "tok")) (codes "form"))

consumed_now :
    consume_action_approval same (codes "a1") (scope (codes "form")) none (codes "now") held
    ≡ ok (done, done ∷ [])
unfolding consume_action_approval find replace text_discrete optional_discrete markdown_escape
    validate_approval_scope validate_identity is_sensitive requires_external_scope
consumed_now = refl

found_held :
    find id_of (codes "a1") held ≡ some (entry reserved (some (codes "tok")) (codes "form"))
unfolding find text_discrete
found_held = refl

approved_first :
    find id_of (codes "a1") (
      run same
        (request wanted (codes "a1") (codes "now") ∷ approve (codes "a1") (codes "now") ∷ [])
        [])
    ≡ some (record (new_entry same wanted (codes "a1") (codes "now")) {
      status = approved;
      approved_at = some (codes "now");
    })
unfolding find text_discrete run step request_action_approval approve_action_request new_entry
    replace
approved_first = refl

step-Moved_example :
    Moved
      (codes "a1")
      (entry reserved (some (codes "tok")) (codes "form"))
      (step same (consume (codes "a1") (scope (codes "form")) none (codes "now")) held)
step-Moved_example =
    step-Moved same (codes "a1") (entry reserved (some (codes "tok")) (codes "form"))
      (consume (codes "a1") (scope (codes "form")) none (codes "now")) held found_held

consume_once_example :
    consume_action_approval same
      (codes "a1")
      (scope (codes "form"))
      none
      (codes "later")
      (run same (approve (codes "a1") (codes "later") ∷ []) (done ∷ []))
    ≡ err wrong_status
consume_once_example =
    consume_once same (codes "a1") (scope (codes "form")) (scope (codes "form")) none none
      (codes "now") (codes "later") held (done, done ∷ [])
      (approve (codes "a1") (codes "later") ∷ []) consumed_now

run-needs_approve_example :
    Approves
      (codes "a1")
      (request wanted (codes "a1") (codes "now") ∷ approve (codes "a1") (codes "now") ∷ [])
run-needs_approve_example =
    run-needs_approve same (codes "a1")
      (request wanted (codes "a1") (codes "now") ∷ approve (codes "a1") (codes "now") ∷ [])
      (record (new_entry same wanted (codes "a1") (codes "now")) {
        status = approved;
        approved_at = some (codes "now");
      })
      approved_first (λ e. cc e)

sensitive_submit : is_sensitive (markdown_escape (codes "browser_submit")) ≡ true
unfolding is_sensitive text_discrete one_of markdown_escape
sensitive_submit = refl

external_submit : requires_external_scope (markdown_escape (codes "browser_submit")) ≡ true
unfolding requires_external_scope text_discrete starts_with markdown_escape
external_submit = refl

consume_in_scope_example :
    (r : Approval) × (find id_of (codes "a1") held ≡ some r) × Granted r (scope (codes "form"))
consume_in_scope_example =
    consume_in_scope same (codes "a1") (scope (codes "form")) none (codes "now") held
      (done, done ∷ []) sensitive_submit external_submit consumed_now

found_empty : find id_of (codes "a1") (entry approved none [] ∷ []) ≡ some (entry approved none [])
unfolding find text_discrete
found_empty = refl

consume_empty_target_example :
    consume_action_approval same
      (codes "a1")
      (scope (codes "other"))
      none
      (codes "now")
      (entry approved none [] ∷ [])
    ≡ consume_action_approval same
        (codes "a1")
        (scope (codes "form"))
        none
        (codes "now")
        (entry approved none [] ∷ [])
consume_empty_target_example =
    consume_empty_target same (codes "a1") (scope (codes "form")) (codes "other") none (codes "now")
      (entry approved none [] ∷ []) (entry approved none []) refl found_empty refl refl
