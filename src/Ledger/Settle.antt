-- ===== src/Ledger/Settle.antt =====
-- `abort_preflight`, `complete` and `mark_unknown` of IdempotencyLedger: a reservation ends.
use personal_ai_model.Prelude.{Bool, not, ◌&&◌, Option, none, some, List, if◌then◌else◌}
use personal_ai_model.Prelude.Text.{Text, ◌==?◌, truthy, is_empty}
use personal_ai_model.Prelude.Result.{Result, ok, err, ◌>>=◌, ◌>>◌, raise_if}
use personal_ai_model.Prelude.Keyed.{find, assign}
use personal_ai_model.Policy.{Approval}
use personal_ai_model.Ledger.{
  OpStatus, Entry, key_of, LedgerError, Answer, blank_entry, reserved, unknown_outcome,
  preflight_aborted, reconciling_started, reconciled_completed, reconciled_cancelled,
  reconciled_failed, must_reconcile, is_reconciling, token_required, op_not_found,
  completed_immutable, already_reconciled, was_aborted, token_mismatch, not_reserved,
}
use personal_ai_model.Ledger.Reserve.{recover_reconciling_entries}

-- if not entry: raise
abbrev pub found_or : LedgerError → Option Entry → Result LedgerError Entry
found_or e none = err e
found_or e (some entry) = ok entry

-- What a method leaves behind its checks: the entry that it assigns, or the ledger as it was.
abbrev pub saved : List Entry → Result LedgerError Entry → Answer (Unit {0})
saved ledger (ok e) = (ok tt, assign key_of e ledger)
saved ledger (err x) = (err x, ledger)

-- The status tests of each method, of which only `reserved` passes.
abbrev pub abort_check : OpStatus → Result LedgerError (Unit {0})
abort_check OpStatus.completed = err completed_immutable
abort_check reconciled_completed = err completed_immutable
abort_check reconciled_cancelled = err already_reconciled
abort_check reconciled_failed = err already_reconciled
abort_check unknown_outcome = err must_reconcile
abort_check preflight_aborted = err was_aborted
abort_check reserved = ok tt
abort_check reconciling_started = err not_reserved

abbrev pub complete_check : OpStatus → Result LedgerError (Unit {0})
complete_check OpStatus.completed = err completed_immutable
complete_check reconciled_completed = err completed_immutable
complete_check unknown_outcome = err must_reconcile
complete_check reconciling_started = err is_reconciling
complete_check reconciled_cancelled = err already_reconciled
complete_check reconciled_failed = err already_reconciled
complete_check preflight_aborted = err was_aborted
complete_check reserved = ok tt

abbrev pub unknown_check : OpStatus → Result LedgerError (Unit {0})
unknown_check OpStatus.completed = err completed_immutable
unknown_check reconciled_completed = err completed_immutable
unknown_check reconciled_cancelled = err already_reconciled
unknown_check reconciled_failed = err already_reconciled
unknown_check reconciling_started = err is_reconciling
unknown_check preflight_aborted = err was_aborted
unknown_check unknown_outcome = err must_reconcile
unknown_check reserved = ok tt

-- stored_token and stored_token != owner_token
abbrev pub is_foreign : Entry → Option Text → Bool
is_foreign e owner_token = truthy e.owner_token && not (e.owner_token ==? owner_token)

abbrev pub aborted_entry : Text → Entry → Text → Text → Entry
aborted_entry key e reason now = record (blank_entry key preflight_aborted) {
  preflight_reason = some reason;
  owner_token = e.owner_token;
  aborted_at = some now;
}

abbrev pub completed_entry : Text → Entry → Text → Text → Entry
completed_entry key e receipt now = record (blank_entry key OpStatus.completed) {
  completed_at = some now;
  owner_token = e.owner_token;
  receipt = some receipt;
}

abbrev pub unknown_entry : Text → Entry → Text → Text → Entry
unknown_entry key e reason now = record (blank_entry key unknown_outcome) {
  error_reason = some reason;
  owner_token = e.owner_token;
  updated_at = some now;
}

abbrev pub abort_found : Text → Text → Text → Text → List Entry → Result LedgerError Entry
abort_found key reason owner_token now ledger = do
  e ← found_or op_not_found (find key_of key ledger)
  abort_check e.status
  raise_if (is_foreign e (some owner_token)) token_mismatch
  ok (aborted_entry key e reason now)

-- It runs no recovery.
unfoldable pub abort_preflight : Text → Text → Text → Text → List Entry → Answer (Unit {0})
abort_preflight key preflight_reason owner_token now ledger = saved ledger do
  raise_if (is_empty owner_token) token_required
  abort_found key preflight_reason owner_token now ledger

abbrev pub complete_found : Text → Text → Text → Text → List Entry → Result LedgerError Entry
complete_found key receipt owner_token now ledger = do
  e ← found_or op_not_found (find key_of key ledger)
  complete_check e.status
  raise_if (is_foreign e (some owner_token)) token_mismatch
  ok (completed_entry key e receipt now)

abbrev pub complete_recovered : Text → Text → Text → Text → List Entry → Answer (Unit {0})
complete_recovered key receipt owner_token now ledger =
    saved ledger (complete_found key receipt owner_token now ledger)

-- The token is asked for before the ledger is read.
unfoldable pub complete : Text → Text → Text → Text → List Approval → List Entry → Answer (Unit {0})
complete key receipt owner_token now approvals ledger =
    if is_empty owner_token
    then (err token_required, ledger)
    else complete_recovered key receipt owner_token now
        (recover_reconciling_entries now approvals ledger)

abbrev pub unknown_found : Text → Text → Option Text → Text → List Entry → Result LedgerError Entry
unknown_found key reason owner_token now ledger = do
  e ← found_or op_not_found (find key_of key ledger)
  unknown_check e.status
  raise_if (not (truthy owner_token)) token_required
  raise_if (is_foreign e owner_token) token_mismatch
  ok (unknown_entry key e reason now)

abbrev pub unknown_recovered : Text → Text → Option Text → Text → List Entry → Answer (Unit {0})
unknown_recovered key reason owner_token now ledger =
    saved ledger (unknown_found key reason owner_token now ledger)

unfoldable pub mark_unknown :
    Text → Text → Option Text → Text → List Approval → List Entry → Answer (Unit {0})
mark_unknown key error_reason owner_token now approvals ledger =
    unknown_recovered key error_reason owner_token now
      (recover_reconciling_entries now approvals ledger)
