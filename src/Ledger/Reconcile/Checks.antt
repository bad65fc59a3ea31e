-- ===== src/Ledger/Reconcile/Checks.antt =====
-- What `reconcile` of IdempotencyLedger checks before it takes the lock of the ledger.
use personal_ai_model.Prelude.{
  Bool, true, false, not, ◌&&◌, Option, none, some, List, [], ◌∷◌, if◌then◌else◌, nat_eq, ℕ,
}
use personal_ai_model.Prelude.Text.{
  Text, codes, ◌==◌, ◌==?◌, truthy, text_or, is_empty, strip, lower, is_space,
}
use personal_ai_model.Prelude.Result.{Result, ok, err, ◌>>=◌, ◌>>◌, raise_if}
use personal_ai_model.Prelude.Keyed.{find}
use personal_ai_model.Policy.{Approval, Status, approved, id_of}
use personal_ai_model.Ledger.{
  Resolution, Evidence, LedgerError, failed, cancelled, invalid_resolution, evidence_required,
  evidence_missing, approval_required, invalid_key, evidence_mismatch, approval_not_found,
  approval_not_approved, approval_mismatch,
}

abbrev pub reconciliation_evidence_fields : List Text
reconciliation_evidence_fields =
    codes "account_id"
    ∷ codes "connector"
    ∷ codes "action"
    ∷ codes "idempotency_key"
    ∷ codes "approval_id"
    ∷ codes "operator_identity"
    ∷ codes "evidence_type"
    ∷ codes "evidence_reference"
    ∷ codes "timestamp"
    ∷ codes "resolution_reason"
    ∷ []

-- The arguments of `reconcile`.
pub record Reconcile : Type 0 where
  pub key : Text
  pub resolution : Text
  pub resolution_reason : Text
  pub evidence : Evidence
  pub approval_id : Text
  pub receipt : Option Text
  pub account_connector_scope : Option Text
  pub account_id : Option Text

unfoldable pub parse_resolution : Text → Result LedgerError Resolution
parse_resolution text =
    if text == codes "completed"
    then ok Resolution.completed
    else if text == codes "failed"
    then ok failed
    else if text == codes "cancelled"
    then ok cancelled
    else err invalid_resolution

abbrev pub field_name : Text × Text → Text
field_name f = f.0

-- evidence.get(name, ""), for the pair that a lookup found
abbrev pub value_or_empty : Option (Text × Text) → Text
value_or_empty none = []
value_or_empty (some f) = f.1

abbrev pub evidence_get : Text → Evidence → Text
evidence_get name evidence = value_or_empty (find field_name name evidence)

abbrev pub is_present : Option (Text × Text) → Bool
is_present none = false
is_present (some f) = true

-- Every required field is among the keys.
unfoldable pub has_fields : List Text → Evidence → Bool
has_fields [] evidence = true
has_fields (name ∷ names) evidence =
    is_present (find field_name name evidence) && has_fields names evidence

abbrev pub put_front : ℕ → Option (Text × Text) → Option (Text × Text)
put_front c none = none
put_front c (some p) = some (c ∷ p.0, p.1)

-- The text before the first colon and the text behind it.
unfoldable pub cut_colon : Text → Option (Text × Text)
cut_colon [] = none
cut_colon (c ∷ s) =
    let rest = cut_colon s in if nat_eq c b':' then some ([], s) else put_front c rest

-- The first two of `composite_key.split(":", 2)`, where it has three parts.
unfoldable pub split_key : Text → Result LedgerError (Text × Text)
split_key key = elim (cut_colon key) [
  | none ↦ err invalid_key
  | some p ↦ elim (cut_colon p.1) [ none ↦ err invalid_key | some q ↦ ok (p.0, q.0) ]
]

-- What the checks leave for the three phases.
pub record Checked : Type 0 where
  pub resolution : Resolution
  pub approval_id : Text
  pub action : Text
  pub scope : Text
  pub account : Text

-- The approval's field, if it has one, is the given one.
abbrev pub differs : Option Text → Text → Bool
differs granted given = truthy granted && not (granted ==? some given)

abbrev pub has_approval : Status → Bool
has_approval approved = true
has_approval _ = false

abbrev pub approval_or : Option Approval → Result LedgerError Approval
approval_or none = err approval_not_found
approval_or (some a) = ok a

-- The evidence names the ledger's operation and the approval.
unfoldable pub check_evidence : Reconcile → Text → Result LedgerError (Text × Text)
check_evidence q approval_id = do
  parts ← split_key q.key
  let connector = strip is_space (evidence_get (codes "connector") q.evidence)
  let action = strip is_space (evidence_get (codes "action") q.evidence)
  raise_if (not (connector == parts.0)) evidence_mismatch
  raise_if (not (action == parts.1)) evidence_mismatch
  raise_if (not (strip is_space (evidence_get (codes "idempotency_key") q.evidence) == q.key))
      evidence_mismatch
  raise_if (not (strip is_space (evidence_get (codes "approval_id") q.evidence) == approval_id))
      evidence_mismatch
  ok (connector, action)

-- The approval is approved, and its scope is the operation's.
unfoldable pub check_approval : Approval → Text → Text → Text → Result LedgerError (Unit {0})
check_approval a action scope account = do
  raise_if (not (has_approval a.status)) approval_not_approved
  raise_if (differs (some a.action) action) approval_mismatch
  raise_if (differs a.connector_scope scope) approval_mismatch
  raise_if (differs a.account_id account) approval_mismatch

-- Everything that `reconcile` does before it takes the lock of the ledger.
unfoldable pub validate_reconciliation : Reconcile → List Approval → Result LedgerError Checked
validate_reconciliation q approvals = do
  resolution ← parse_resolution (strip is_space (lower q.resolution))
  raise_if (is_empty q.evidence) evidence_required
  raise_if (not (has_fields reconciliation_evidence_fields q.evidence)) evidence_missing
  let approval_id = strip is_space q.approval_id
  raise_if (is_empty approval_id) approval_required
  named ← check_evidence q approval_id
  a ← approval_or (find id_of approval_id approvals)
  let scope = text_or q.account_connector_scope named.0
  let account = text_or q.account_id (evidence_get (codes "account_id") q.evidence)
  check_approval a named.1 scope account
  ok (record {
    resolution = resolution;
    approval_id = approval_id;
    action = named.1;
    scope = scope;
    account = account;
  })
