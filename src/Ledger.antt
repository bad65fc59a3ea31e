-- ===== src/Ledger.antt =====
-- src/guardian_agent/connectors.py, class IdempotencyLedger: one entry for each connector operation, under
-- its composite key. The ledger file is the list of its entries in the order of the dict; a method that
-- holds the ledger's lock is one function, which gives back its answer or the error it raises, and the
-- ledger that it leaves: a recovery, or the expiry of a reservation, is saved also where an error follows.
-- The clock, the fresh tokens and the approval queue, as it is read, are arguments.
pub mod Reserve
pub mod Settle
pub mod Reconcile
pub mod Protocol
pub mod Steps
pub mod View
pub mod Phases
pub mod Exclusion
pub mod Asked
pub mod Resolved
pub mod Crash
pub mod Reconciled
mod Tests
use personal_ai_model.Prelude.{ℕ, Bool, true, false, Option, none, some, List}
use personal_ai_model.Prelude.Text.{Text}
use personal_ai_model.Prelude.Result.{Result}
use personal_ai_model.Policy.{Approval, ApprovalError}

pub data OpStatus : Type 0 where
  reserved completed unknown_outcome preflight_aborted reconciling_started : OpStatus
  reconciled_completed reconciled_cancelled reconciled_failed : OpStatus

-- completed, failed or cancelled
pub data Resolution : Type 0 where
  completed failed cancelled : Resolution

-- The evidence of a reconciliation: a dict whose values are texts.
abbrev pub Evidence : Type 0
Evidence = List (Text × Text)

-- An entry; `none` is a key that the dict does not have. A receipt is the text of its dict, empty for the
-- empty dict.
pub record Entry : Type 0 where
  pub key : Text
  pub status : OpStatus
  pub payload_hash : Option Text
  pub owner_token : Option Text
  pub reserved_at : Option Text
  pub reserved_timestamp : Option ℕ
  pub receipt : Option Text
  pub completed_at : Option Text
  pub preflight_reason : Option Text
  pub aborted_at : Option Text
  pub error_reason : Option Text
  pub updated_at : Option Text
  pub reconciling_resolution : Option Resolution
  pub reconciling_approval_id : Option Text
  pub reconciling_evidence : Option Evidence
  pub reconciling_receipt : Option Text
  pub reconciling_account_connector_scope : Option Text
  pub reconciling_account_id : Option Text
  pub reconciling_started_at : Option Text
  pub reconciliation_reason : Option Text
  pub reconciliation_evidence : Option Evidence
  pub reconciliation_approval_id : Option Text
  pub reconciliation_consumption : Option Approval
  pub reconciled_at : Option Text
  pub reconciled_via_recovery : Bool

abbrev pub key_of : Entry → Text
key_of e = e.key

-- The messages of `GuardianError`; `refused` is one of the approval queue.
pub data LedgerError : Type 0 where
  must_reconcile is_reconciling running_elsewhere reservation_expired : LedgerError
  token_required op_not_found completed_immutable already_reconciled was_aborted token_mismatch :
      LedgerError
  not_reserved invalid_resolution evidence_required evidence_missing approval_required : LedgerError
  invalid_key evidence_mismatch approval_not_found approval_not_approved approval_mismatch :
      LedgerError
  not_unknown not_started : LedgerError
  refused : ApprovalError → LedgerError

-- What a method answers or raises, and the ledger that it leaves.
abbrev pub Answer {ℓ} : Type ℓ → Type ℓ
Answer A = Result LedgerError A × List Entry

-- A new dict under the key.
abbrev pub blank_entry : Text → OpStatus → Entry
blank_entry key status = record {
  key = key;
  status = status;
  payload_hash = none;
  owner_token = none;
  reserved_at = none;
  reserved_timestamp = none;
  receipt = none;
  completed_at = none;
  preflight_reason = none;
  aborted_at = none;
  error_reason = none;
  updated_at = none;
  reconciling_resolution = none;
  reconciling_approval_id = none;
  reconciling_evidence = none;
  reconciling_receipt = none;
  reconciling_account_connector_scope = none;
  reconciling_account_id = none;
  reconciling_started_at = none;
  reconciliation_reason = none;
  reconciliation_evidence = none;
  reconciliation_approval_id = none;
  reconciliation_consumption = none;
  reconciled_at = none;
  reconciled_via_recovery = false;
}
