-- ===== src/Ledger/Asked.antt =====
-- What the checks of a reconciliation have seen where they pass. The parts of a key are read back.
use personal_ai_model.Prelude.{
  arith, subst, not, Option, ◌≡◌, refl, some, List, [], ◌∷◌, ◌++◌, All, nat_eq, false,
}
use personal_ai_model.Prelude.Text.{Text, codes, strip, is_space, lower, text_or, is_empty}
use personal_ai_model.Prelude.Result.{ok, ok-injective, >>=-ok, raise_if}
use personal_ai_model.Prelude.Keyed.{find}
use personal_ai_model.Policy.{Approval, approved, id_of}
use personal_ai_model.Ledger.{
  Resolution, failed, cancelled, evidence_required, evidence_missing, approval_required,
}
use personal_ai_model.Ledger.Reconcile.{
  Reconcile, Checked, validate_reconciliation, parse_resolution, check_approval, approval_or,
  has_fields, reconciliation_evidence_fields, check_evidence, evidence_get, cut_colon, split_key,
  comp_key,
}

-- The resolution is the one that the text names.
abbrev pub Names : Text → Resolution → Type 0
Names text Resolution.completed = text ≡ codes "completed"
Names text failed = text ≡ codes "failed"
Names text cancelled = text ≡ codes "cancelled"

parse_resolution-Names :
    (text : Text) (r : Resolution) → parse_resolution text ≡ ok r → Names text r
unfolding parse_resolution
parse_resolution-Names text Resolution.completed e = ground (arith, e)
parse_resolution-Names text failed e = ground (arith, e)
parse_resolution-Names text cancelled e = ground (arith, e)

-- The approval that the call names is in the queue, and approved.
abbrev pub IsApproved : Text → List Approval → Type 0
IsApproved id approvals =
    (a : Approval) × (find id_of id approvals ≡ some a) × (a.status ≡ approved)

check_approval-approved :
    (a : Approval) (action scope account : Text)
    → check_approval a action scope account ≡ ok tt
    → a.status ≡ approved
unfolding check_approval
check_approval-approved a action scope account e = ground (arith, e)

approval_or-some : (o : Option Approval) (a : Approval) → approval_or o ≡ ok a → o ≡ some a
approval_or-some o a e = ground arith

-- What the checks have seen where they pass.
abbrev pub Asks : Reconcile → List Approval → Checked → Type 0
Asks q approvals c =
    Names (strip is_space (lower q.resolution)) c.resolution
    × (c.approval_id ≡ strip is_space q.approval_id)
    × IsApproved c.approval_id approvals

pub validate_reconciliation-Asks :
    (q : Reconcile) (approvals : List Approval) (c : Checked)
    → validate_reconciliation q approvals ≡ ok c
    → Asks q approvals c
unfolding validate_reconciliation
validate_reconciliation-Asks q approvals c e =
    let (r, named, e₁) = >>=-ok (parse_resolution (strip is_space (lower q.resolution))) _ e in
    let (_, _, e₂) = >>=-ok (raise_if (is_empty q.evidence) evidence_required) _ e₁ in
    let (_, _, e₃) =
      >>=-ok
        (raise_if (not (has_fields reconciliation_evidence_fields q.evidence)) evidence_missing) _
        e₂ in
    let (_, _, e₄) =
      >>=-ok (raise_if (is_empty (strip is_space q.approval_id)) approval_required) _ e₃ in
    let (parts, _, e₅) = >>=-ok (check_evidence q (strip is_space q.approval_id)) _ e₄ in
    let (a, f, e₆) =
      >>=-ok (approval_or (find id_of (strip is_space q.approval_id) approvals)) _ e₅ in
    let (_, g, last) =
      >>=-ok
        (check_approval a parts.1 (text_or q.account_connector_scope parts.0)
          (text_or q.account_id (evidence_get (codes "account_id") q.evidence)))
        _ e₆ in
    subst (Asks q approvals) (ok-injective last) (
      parse_resolution-Names _ r named,
      refl,
      (a, approval_or-some _ a f, check_approval-approved a _ _ _ g),
    )

-- A text without a colon.
abbrev pub NoColon : Text → Type 0
NoColon s = All (λ c. nat_eq c b':' ≡ false) s

cut_colon-append : (s t : Text) → NoColon s → cut_colon (s ++ b':' ∷ t) ≡ some (s, t)
unfolding cut_colon
cut_colon-append [] t h = refl
cut_colon-append (c ∷ s) t (n, h) = rw (n, cut_colon-append s t h) refl

-- The connector and the action of a composite key are read back from it where they have no colon,
-- whatever the idempotency key is.
pub split_key-comp_key :
    (connector action key : Text)
    → NoColon connector
    → NoColon action
    → split_key (comp_key connector action key) ≡ ok (connector, action)
unfolding split_key comp_key
split_key-comp_key connector action key h g =
    rw
      (
        comp_key,
        split_key,
        cut_colon-append connector (action ++ b':' ∷ key) h,
        cut_colon-append action key g,
      )
      refl
