-- ===== src/Ledger/Reserve.antt =====
-- `_recover_reconciling_entries` and `reserve` of IdempotencyLedger.
use personal_ai_model.Prelude.{
  ℕ, ◌+◌, ◌*◌, Bool, true, false, ◌&&◌, Option, none, some, List, map, ltb, if◌then◌else◌,
}
use personal_ai_model.Prelude.Text.{Text, codes, ◌==?◌, truthy, text_or}
use personal_ai_model.Prelude.Result.{ok, err}
use personal_ai_model.Prelude.Keyed.{find, assign}
use personal_ai_model.Policy.{Approval, Status, consumed, id_of}
use personal_ai_model.Execution.{second}
use personal_ai_model.Ledger.{
  OpStatus, Resolution, Entry, key_of, must_reconcile, is_reconciling, running_elsewhere,
  reservation_expired, Answer, blank_entry, reserved, unknown_outcome, reconciling_started,
  reconciled_completed, reconciled_cancelled, reconciled_failed, failed, cancelled,
}

abbrev pub is_started : OpStatus → Bool
is_started reconciling_started = true
is_started _ = false

abbrev pub is_consumed : Status → Bool
is_consumed consumed = true
is_consumed _ = false

-- approval_entry and approval_entry.get("status") == "consumed"
abbrev pub approval_consumed : Option Approval → Bool
approval_consumed none = false
approval_consumed (some a) = is_consumed a.status

-- f"reconciled_{resolution}"
abbrev pub reconciled_as : Resolution → OpStatus
reconciled_as Resolution.completed = reconciled_completed
reconciled_as failed = reconciled_failed
reconciled_as cancelled = reconciled_cancelled

abbrev pub resolution_or_cancelled : Option Resolution → Resolution
resolution_or_cancelled none = cancelled
resolution_or_cancelled (some r) = r

-- The recovery keeps `reconciling_started_at`.
abbrev pub without_wal : Entry → Entry
without_wal e = record e {
  reconciling_resolution = none;
  reconciling_approval_id = none;
  reconciling_evidence = none;
  reconciling_receipt = none;
  reconciling_account_connector_scope = none;
  reconciling_account_id = none;
}

abbrev pub completion_time : Resolution → Text → Option Text → Option Text
completion_time Resolution.completed now old = some now
completion_time _ now old = old

-- The approval was consumed before the crash.
abbrev pub recovered_forward : Text → Entry → Entry
recovered_forward now e =
    let resolution = resolution_or_cancelled e.reconciling_resolution in
    record (without_wal e) {
      status = reconciled_as resolution;
      completed_at = completion_time resolution now e.completed_at;
      reconciled_at = some now;
      reconciled_via_recovery = true;
    }

abbrev pub rolled_back : Text → Entry → Entry
rolled_back now e = record (without_wal e) {
  status = unknown_outcome;
  error_reason = some (codes "Reconciliation crashed before approval consumption");
  updated_at = some now;
}

unfoldable pub recover_entry : Text → List Approval → Entry → Entry
recover_entry now approvals e =
    if is_started e.status
    then (if approval_consumed (find id_of (text_or e.reconciling_approval_id (codes "")) approvals)
        then recovered_forward now e
        else rolled_back now e)
    else e

unfoldable pub recover_reconciling_entries : Text → List Approval → List Entry → List Entry
recover_reconciling_entries now approvals ledger = map (recover_entry now approvals) ledger

-- The dict that `reserve` gives back.
pub record Reservation : Type 0 where
  pub already_completed : Bool
  pub owner_token : Option Text
  pub receipt : Option Text
  pub re_reserved : Bool

-- The arguments of `reserve`, its fresh token and its clock.
pub record Reserve : Type 0 where
  pub key : Text
  pub payload_hash : Text
  pub ttl_seconds : ℕ
  pub owner_token : Option Text
  pub fresh_token : Text
  pub now : Text
  pub now_ts : ℕ

abbrev pub new_reservation : Reserve → Entry
new_reservation q = record (blank_entry q.key reserved) {
  payload_hash = some q.payload_hash;
  owner_token = some q.fresh_token;
  reserved_at = some q.now;
  reserved_timestamp = some q.now_ts;
}

abbrev pub granted : Option Text → Bool → Reservation
granted token re_reserved = record {
  already_completed = false;
  owner_token = token;
  receipt = none;
  re_reserved = re_reserved;
}

abbrev pub timestamp_or_zero : Option ℕ → ℕ
timestamp_or_zero none = 0
timestamp_or_zero (some t) = t

-- elapsed < ttl_seconds
abbrev pub is_running : Reserve → Entry → Bool
is_running q e = ltb q.now_ts (timestamp_or_zero e.reserved_timestamp + q.ttl_seconds * second)

abbrev pub expired : Text → Entry → Entry
expired now e = record e {
  status = unknown_outcome;
  error_reason = some (codes "Stale reservation TTL expired without completion or release");
  updated_at = some now;
}

-- owner_token and stored_token == owner_token
abbrev pub owns : Reserve → Entry → Bool
owns q e = truthy q.owner_token && (e.owner_token ==? q.owner_token)

unfoldable pub reserve_reserved : Reserve → Entry → List Entry → Answer Reservation
reserve_reserved q e ledger =
    if is_running q e
    then (if owns q e
        then (ok (granted e.owner_token true), ledger)
        else (err running_elsewhere, ledger))
    else (err reservation_expired, assign key_of (expired q.now e) ledger)

-- What `reserve` does on each status of the entry that it found.
unfoldable pub reserve_status : OpStatus → Reserve → Entry → List Entry → Answer Reservation
reserve_status OpStatus.completed q e ledger = (
  ok (record {
    already_completed = true;
    owner_token = none;
    receipt = e.receipt;
    re_reserved = false;
  }),
  ledger,
)
reserve_status reconciled_completed q e ledger = (
  ok (record {
    already_completed = true;
    owner_token = none;
    receipt = e.receipt;
    re_reserved = false;
  }),
  ledger,
)
reserve_status reconciling_started q e ledger = (err is_reconciling, ledger)
reserve_status unknown_outcome q e ledger = (err must_reconcile, ledger)
reserve_status reserved q e ledger = reserve_reserved q e ledger
reserve_status _ q e ledger =
    (ok (granted (some q.fresh_token) true), assign key_of (new_reservation q) ledger)

unfoldable pub reserve_found : Reserve → List Entry → Answer Reservation
reserve_found q ledger = elim (find key_of q.key ledger) [
  | none ↦ (ok (granted (some q.fresh_token) false), assign key_of (new_reservation q) ledger)
  | some e ↦ reserve_status e.status q e ledger
]

unfoldable pub reserve : Reserve → List Approval → List Entry → Answer Reservation
reserve q approvals ledger = reserve_found q (recover_reconciling_entries q.now approvals ledger)
