-- ===== src/Policy.antt =====
-- src/guardian_agent/policy.py: the approval queue. The queue file is the list of its entries, oldest
-- first; an operation that raises leaves it as it was. `sanitize` is `sanitize_url_for_audit`
-- of security_url.py, which rests on urllib; the clock's text and the random ids are arguments.
mod Validation
mod Cases
pub mod Lifecycle
pub mod Consent
mod Tests
unfoldable pub use Validation.*
use personal_ai_model.Prelude.{
  ◌≡◌, refl, Bool, true, false, not, ◌&&◌, ◌||◌, Option, none, some, List, [], ◌∷◌, ◌++◌,
  if◌then◌else◌,
}
use personal_ai_model.Prelude.Text.{Text, codes, ◌==◌, ◌==?◌, truthy, text_or, is_empty}
use personal_ai_model.Prelude.Result.{Result, ok, err, ◌>>=◌, ◌>>◌, raise_if}
use personal_ai_model.Prelude.Keyed.{find, replace}
use personal_ai_model.Core.{markdown_escape}

abbrev pub id_of : Approval → Text
id_of r = r.id

-- next((e for e in entries if e["id"] == request_id), None), or the error.
abbrev or_raise {ℓ} : {A : Type ℓ} → Option A → ApprovalError → Result ApprovalError A
or_raise none e = err e
or_raise (some a) e = ok a

abbrev lookup : Text → List Approval → Result ApprovalError Approval
lookup request_id entries = or_raise (find id_of request_id entries) not_found

abbrev is_pending : Status → Bool
is_pending pending = true
is_pending _ = false

abbrev is_approved : Status → Bool
is_approved approved = true
is_approved _ = false

abbrev is_reserved : Status → Bool
is_reserved reserved = true
is_reserved _ = false

-- What a call that changes the queue gives back: the entry, and the queue that is written.
abbrev pub Written : Type 0
Written = Result ApprovalError (Approval × List Approval)

-- entry[...] = ...; the whole queue is rewritten.
abbrev rewrite_queue : Approval → List Approval → Written
rewrite_queue r entries = ok (r, replace id_of r.id r entries)

-- What each operation writes into the entry that it found.
abbrev pub as_approved : Text → Approval → Approval
as_approved now r = record r { status = approved; approved_at = some now }

abbrev pub as_reserved : Text → Text → Approval → Approval
as_reserved token now r = record r {
  status = reserved;
  reservation_token = some token;
  reserved_at = some now;
}

abbrev pub as_consumed : Option Text → Text → Approval → Approval
as_consumed evidence now r = record r {
  status = consumed;
  consumed_at = some now;
  after_evidence = if truthy evidence then evidence else r.after_evidence;
}

abbrev pub as_unknown : Text → Text → Approval → Approval
as_unknown error_reason now r = record r {
  status = unknown_outcome;
  error_reason = some error_reason;
  updated_at = some now;
}

-- A reserved entry is given again to the holder of its token.
abbrev reserve_again : Approval → Option Text → List Approval → Written
reserve_again request token entries =
    if truthy token && (request.reservation_token ==? token)
    then ok (request, entries)
    else err already_reserved

-- The arguments of a request: `user_id` defaults to "user_default".
pub record Request : Type 0 where
  pub action : Text
  pub target : Text
  pub reason : Text
  pub user_id : Text
  pub account_id : Option Text
  pub connector_scope : Option Text
  pub idempotency_key : Option Text
  pub before_evidence : Option Text
  pub expires_at : Option Text

module _ (sanitize : Text → Text) where
  unfoldable pub new_entry : Request → Text → Text → Approval
  unfolding markdown_escape
  new_entry q req_id now = record {
    id = req_id;
    timestamp = now;
    expires_at = q.expires_at;
    user_id = some q.user_id;
    account_id = q.account_id;
    connector_scope = q.connector_scope;
    action = markdown_escape q.action;
    target = q.target;
    canonical_target = sanitize q.target;
    reason = markdown_escape q.reason;
    idempotency_key = some (text_or q.idempotency_key req_id);
    before_evidence = q.before_evidence;
    after_evidence = none;
    reservation_token = none;
    status = pending;
    approved_at = none;
    reserved_at = none;
    consumed_at = none;
    updated_at = none;
    error_reason = none;
  }

  unfoldable pub request_action_approval :
      Request → Text → Text → List Approval → Approval × List Approval
  unfolding new_entry
  request_action_approval q req_id now entries =
      let entry = new_entry q req_id now in (entry, entries ++ entry ∷ [])

  unfoldable pub reserve_action_approval : Text → Scope → Text → Text → List Approval → Written
  reserve_action_approval request_id s token now entries = do
    request ← lookup request_id entries
    if is_reserved request.status then reserve_again request s.reservation_token entries else do
      raise_if (not (is_approved request.status)) wrong_status
      validate_approval_scope sanitize request now
          (record s { reservation_token = none; require_token = false })
      rewrite_queue (as_reserved token now request) entries

  unfoldable pub consume_action_approval :
      Text → Scope → Option Text → Text → List Approval → Written
  consume_action_approval request_id s after_evidence now entries = do
    request ← lookup request_id entries
    raise_if (not (is_approved request.status || is_reserved request.status)) wrong_status
    validate_approval_scope sanitize request now
        (record s { require_token = is_reserved request.status })
    rewrite_queue (as_consumed after_evidence now request) entries

  -- The token check of `mark_approval_unknown_outcome`: the scope check where the caller names an
  -- action and a target, the bare token otherwise.
  pub validate_unknown :
      Approval → Option Text → Option Text → Option Text → Text → Result ApprovalError (Unit {0})
  validate_unknown request (some action) (some target) reservation_token now =
      if not (is_empty action) && not (is_empty target)
      then validate_approval_scope sanitize request now (record {
        action = action;
        target = target;
        user_id = none;
        account_id = none;
        connector_scope = none;
        idempotency_key = none;
        reservation_token = reservation_token;
        require_token = true;
      })
      else raise_if (lacks reservation_token request.reservation_token) token_mismatch
  validate_unknown request _ _ reservation_token now =
      raise_if (lacks reservation_token request.reservation_token) token_mismatch

  unfoldable pub mark_approval_unknown_outcome :
      Text → Text → Option Text → Option Text → Option Text → Text → List Approval → Written
  mark_approval_unknown_outcome request_id error_reason action target token now entries = do
    request ← lookup request_id entries
    raise_if (not (is_reserved request.status)) wrong_status
    validate_unknown request action target token now
    rewrite_queue (as_unknown error_reason now request) entries

unfoldable pub approve_action_request : Text → Text → List Approval → Written
approve_action_request request_id now entries = do
  request ← lookup request_id entries
  raise_if (not (is_pending request.status)) wrong_status
  rewrite_queue (as_approved now request) entries
