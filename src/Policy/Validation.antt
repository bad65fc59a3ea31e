-- ===== src/Policy/Validation.antt =====
-- An approval, and `_validate_approval_scope`: what reservation and consumption check of it.
use personal_ai_model.Prelude.{
  ◌≡◌, Bool, false, not, ◌&&◌, ◌||◌, Option, none, some, List, [], ◌∷◌, arith, if◌then◌else◌,
}
use personal_ai_model.Prelude.Text.{
  Text, codes, ◌==◌, ◌==?◌, is_empty, truthy, text_or, text_le, starts_with,
}
use personal_ai_model.Prelude.Result.{Result, ok, ◌>>◌, raise_if}
use personal_ai_model.Core.{markdown_escape}

pub data Status : Type 0 where
  pending approved reserved consumed unknown_outcome : Status

pub record Approval : Type 0 where
  pub id : Text
  pub timestamp : Text
  pub expires_at : Option Text
  pub user_id : Option Text
  pub account_id : Option Text
  pub connector_scope : Option Text
  pub action : Text
  pub target : Text
  pub canonical_target : Text
  pub reason : Text
  pub idempotency_key : Option Text
  pub before_evidence : Option Text
  pub after_evidence : Option Text
  pub reservation_token : Option Text
  pub status : Status
  pub approved_at : Option Text
  pub reserved_at : Option Text
  pub consumed_at : Option Text
  pub updated_at : Option Text
  pub error_reason : Option Text

-- The messages of `GuardianError`.
pub data ApprovalError : Type 0 where
  not_found wrong_status already_reserved : ApprovalError
  action_mismatch target_mismatch expired : ApprovalError
  user_mismatch account_mismatch connector_mismatch key_mismatch token_mismatch : ApprovalError

abbrev pub sensitive_actions : List Text
sensitive_actions =
    codes "submit_payment"
    ∷ codes "delete_file"
    ∷ codes "irreversible_git_push"
    ∷ codes "create_external_account"
    ∷ codes "browser_submit"
    ∷ codes "browser_publish"
    ∷ codes "browser_purchase"
    ∷ codes "browser_delete"
    ∷ codes "browser_create_account"
    ∷ codes "browser_accept_terms"
    ∷ codes "browser_identity_verification"
    ∷ codes "browser_fill_credential"
    ∷ codes "accept_legal_terms"
    ∷ codes "identity_verification"
    ∷ codes "captcha_or_mfa_bypass"
    ∷ []

-- s in xs
unfoldable pub one_of : Text → List Text → Bool
one_of s [] = false
one_of s (x ∷ xs) = (x == s) || one_of s xs

unfoldable pub is_sensitive : Text → Bool
unfolding one_of
is_sensitive action = one_of action sensitive_actions

unfoldable pub requires_external_scope : Text → Bool
unfolding starts_with
requires_external_scope action =
    starts_with action (codes "browser_") || action == codes "create_external_account"

-- The keyword arguments of `_validate_approval_scope`.
pub record Scope : Type 0 where
  pub action : Text
  pub target : Text
  pub user_id : Option Text
  pub account_id : Option Text
  pub connector_scope : Option Text
  pub idempotency_key : Option Text
  pub reservation_token : Option Text
  pub require_token : Bool

abbrev pub default_user : Text
default_user = codes "user_default"

-- not a or not b or a != b
abbrev pub lacks : Option Text → Option Text → Bool
lacks a b = not (truthy a) || not (truthy b) || not (a ==? b)

-- a and b and a != b
abbrev pub clashes : Option Text → Option Text → Bool
clashes a b = truthy a && truthy b && not (a ==? b)

-- Account and connector of a sensitive action: mandatory for an external one, and where either
-- side names one.
unfoldable pub validate_sensitive : Bool → Approval → Scope → Result ApprovalError (Unit {0})
validate_sensitive external request s = do
  let eff_user = some (text_or s.user_id default_user)
  raise_if (not (truthy request.user_id) || not (request.user_id ==? eff_user)) user_mismatch
  raise_if (external && lacks request.account_id s.account_id) account_mismatch
  raise_if
      (not external
        && (truthy s.account_id || truthy request.account_id)
        && lacks request.account_id s.account_id)
      account_mismatch
  raise_if (external && lacks request.connector_scope s.connector_scope) connector_mismatch
  raise_if
      (not external
        && (truthy s.connector_scope || truthy request.connector_scope)
        && lacks request.connector_scope s.connector_scope)
      connector_mismatch

unfoldable pub validate_ordinary : Approval → Scope → Result ApprovalError (Unit {0})
validate_ordinary request s = do
  let eff_user = some (text_or s.user_id default_user)
  raise_if (truthy s.user_id && truthy request.user_id && not (request.user_id ==? eff_user))
      user_mismatch
  raise_if (clashes s.account_id request.account_id) account_mismatch
  raise_if (clashes s.connector_scope request.connector_scope) connector_mismatch

-- if is_sensitive: ... else: ...
unfoldable pub validate_identity : Bool → Bool → Approval → Scope → Result ApprovalError (Unit {0})
unfolding validate_sensitive validate_ordinary
validate_identity sensitive external request s =
    if sensitive then validate_sensitive external request s else validate_ordinary request s

-- expires_at and expires_at <= now
abbrev pub is_expired : Option Text → Text → Bool
is_expired none now = false
is_expired (some t) now = not (is_empty t) && text_le t now

module _ (sanitize : Text → Text) where
  -- request.get("canonical_target") or sanitize_url_for_audit(request.get("target", ""))
  abbrev pub canonical : Approval → Text
  canonical request = text_or (some request.canonical_target) (sanitize request.target)

  -- The granted target is known and is neither the asked one nor its redacted form.
  abbrev pub is_other_target : Approval → Text → Text → Bool
  is_other_target request clean_target target =
      not (is_empty (canonical request))
      && not (canonical request == clean_target)
      && not (request.target == target)

  unfoldable pub validate_approval_scope : Approval → Text → Scope → Result ApprovalError (Unit {0})
  validate_approval_scope request now s = do
    let clean_action = markdown_escape s.action
    let clean_target = sanitize s.target
    raise_if (not (request.action == clean_action)) action_mismatch
    raise_if (is_other_target request clean_target s.target) target_mismatch
    raise_if (is_expired request.expires_at now) expired
    validate_identity (is_sensitive clean_action) (requires_external_scope clean_action) request s
    raise_if (clashes s.idempotency_key request.idempotency_key) key_mismatch
    raise_if (s.require_token && lacks s.reservation_token request.reservation_token) token_mismatch

  -- What a validated request has passed.
  pub record Validated (request : Approval) (now : Text) (s : Scope) : Type 0 where
    pub action_granted : request.action ≡ markdown_escape s.action
    pub target_granted : is_other_target request (sanitize s.target) s.target ≡ false
    pub in_time : is_expired request.expires_at now ≡ false
    pub identity_granted :
        validate_identity
          (is_sensitive (markdown_escape s.action))
          (requires_external_scope (markdown_escape s.action))
          request
          s
        ≡ ok tt
    pub key_granted : clashes s.idempotency_key request.idempotency_key ≡ false
    pub token_granted :
        (s.require_token && lacks s.reservation_token request.reservation_token) ≡ false

  pub validate-Validated :
      (request : Approval) (now : Text) (s : Scope)
      → validate_approval_scope request now s ≡ ok tt
      → Validated request now s
  unfolding validate_approval_scope
  validate-Validated request now s e = ground arith
