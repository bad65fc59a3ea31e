-- ===== src/Ledger/Reconcile.antt =====
-- The three phases of `reconcile` of IdempotencyLedger; Protocol has the call as a whole. `sanitize` is that
-- of Policy, `dumps` is `json.dumps` of the evidence with sorted keys.
mod Checks
unfoldable pub use Checks.*
use personal_ai_model.Prelude.{
  Bool, true, false, not, ◌&&◌, Option, none, some, List, [], ◌∷◌, ◌++◌, if◌then◌else◌, nat_eq, ℕ,
}
use personal_ai_model.Prelude.Text.{
  Text, codes, ◌==◌, ◌==?◌, truthy, text_or, is_empty, strip, lower, is_space,
}
use personal_ai_model.Prelude.Result.{Result, ok, err, ◌>>=◌, ◌>>◌, raise_if}
use personal_ai_model.Prelude.Keyed.{find}
use personal_ai_model.Policy.{
  Approval, Status, approved, Scope, Written, id_of, consume_action_approval,
}
use personal_ai_model.Ledger.{
  OpStatus, Resolution, Evidence, Entry, key_of, LedgerError, Answer, unknown_outcome,
  reconciling_started, failed, cancelled, op_not_found, invalid_resolution, evidence_required,
  evidence_missing, approval_required, invalid_key, evidence_mismatch, approval_not_found,
  approval_not_approved, approval_mismatch, not_unknown, not_started, refused,
}
use personal_ai_model.Ledger.Reserve.{
  is_started, reconciled_as, completion_time, without_wal, recover_reconciling_entries,
}
use personal_ai_model.Ledger.Settle.{found_or, saved}

abbrev pub is_unknown : OpStatus → Bool
is_unknown unknown_outcome = true
is_unknown _ = false

-- A key that is written only where the value is truthy.
abbrev pub if_truthy : Option Text → Option Text → Option Text
if_truthy value old = if truthy value then value else old

-- Phase 1: what is written ahead of the consumption.
abbrev pub started_entry : Reconcile → Checked → Text → Entry → Entry
started_entry q c now e = record e {
  status = reconciling_started;
  reconciling_resolution = some c.resolution;
  reconciling_approval_id = some c.approval_id;
  reconciling_evidence = some q.evidence;
  reconciling_receipt = if_truthy q.receipt e.reconciling_receipt;
  reconciling_account_connector_scope =
      if_truthy q.account_connector_scope e.reconciling_account_connector_scope;
  reconciling_account_id = if_truthy q.account_id e.reconciling_account_id;
  reconciling_started_at = some now;
}

abbrev pub start_found : Reconcile → Checked → Text → List Entry → Result LedgerError Entry
start_found q c now ledger = do
  e ← found_or op_not_found (find key_of q.key ledger)
  raise_if (not (is_unknown e.status)) not_unknown
  ok (started_entry q c now e)

abbrev pub start_recovered : Reconcile → Checked → Text → List Entry → Answer (Unit {0})
start_recovered q c now ledger = saved ledger (start_found q c now ledger)

unfoldable pub start_reconciling :
    Reconcile → Checked → Text → List Approval → List Entry → Answer (Unit {0})
start_reconciling q c now approvals ledger =
    start_recovered q c now (recover_reconciling_entries now approvals ledger)

-- Phase 2: the call that consumes the approval.
abbrev pub consumption_scope : Reconcile → Checked → Scope
consumption_scope q c = record {
  action = c.action;
  target = q.key;
  user_id = none;
  account_id = some c.account;
  connector_scope = some c.scope;
  idempotency_key = none;
  reservation_token = none;
  require_token = false;
}

unfoldable pub consume_reconciling :
    (Text → Text) → (Evidence → Text) → Reconcile → Checked → Text → List Approval → Written
consume_reconciling sanitize dumps q c now approvals =
    consume_action_approval sanitize c.approval_id (consumption_scope q c) (some (dumps q.evidence))
      now approvals

-- Phase 3. `default_receipt` is the text of the receipt that the code builds where it was given none.
abbrev pub final_receipt : Reconcile → Resolution → Text → Option Text → Option Text
final_receipt q Resolution.completed default_receipt old = some (text_or q.receipt default_receipt)
final_receipt q _ default_receipt old = old

abbrev pub finished_entry : Reconcile → Checked → Approval → Text → Text → Entry → Entry
finished_entry q c consumed default_receipt now e = record (without_wal e) {
  status = reconciled_as c.resolution;
  completed_at = completion_time c.resolution now e.completed_at;
  receipt = final_receipt q c.resolution default_receipt e.receipt;
  reconciliation_reason = some q.resolution_reason;
  reconciliation_evidence = some q.evidence;
  reconciliation_approval_id = some c.approval_id;
  reconciliation_consumption = some consumed;
  reconciled_at = some now;
  reconciling_started_at = none;
}

abbrev pub finish_found :
    Reconcile → Checked → Approval → Text → Text → List Entry → Result LedgerError Entry
finish_found q c consumed default_receipt now ledger = do
  e ← found_or op_not_found (find key_of q.key ledger)
  raise_if (not (is_started e.status)) not_started
  ok (finished_entry q c consumed default_receipt now e)

unfoldable pub finish_reconciling :
    Reconcile → Checked → Approval → Text → Text → List Entry → Answer (Unit {0})
finish_reconciling q c consumed default_receipt now ledger =
    saved ledger (finish_found q c consumed default_receipt now ledger)

-- The top-level helpers: f"{connector_name}:{action}:{idempotency_key}".
unfoldable pub comp_key : Text → Text → Text → Text
comp_key connector_name action idempotency_key =
    connector_name ++ (b':' ∷ (action ++ (b':' ∷ idempotency_key)))
