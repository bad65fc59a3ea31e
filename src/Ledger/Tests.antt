-- ===== src/Ledger/Tests.antt =====
-- Runs of the ledger: one operation, sent by the connector "mail".
use personal_ai_model.Prelude.{All, ◌≡◌, ◌⊎◌, refl, none, some, List, [], ◌∷◌, true, false}
use personal_ai_model.Prelude.Text.{Text, codes, text_discrete, optional_discrete, strip, to_lower}
use personal_ai_model.Prelude.Result.{ok, err}
use personal_ai_model.Prelude.Keyed.{find, replace}
use personal_ai_model.Core.{markdown_escape}
use personal_ai_model.Policy.{
  Approval, approved, id_of, consume_action_approval, as_consumed, is_sensitive,
  requires_external_scope, validate_approval_scope, validate_identity,
}
use personal_ai_model.Policy.Lifecycle
use personal_ai_model.Policy.Lifecycle.{IsSpent}
use personal_ai_model.Ledger.{
  Resolution, Evidence, Entry, key_of, running_elsewhere, evidence_required,
}
use personal_ai_model.Ledger.Reserve.{
  Reserve, reserve, new_reservation, recover_reconciling_entries, recover_entry, approval_consumed,
}
use personal_ai_model.Ledger.Settle.{complete, unknown_entry}
use personal_ai_model.Ledger.Reconcile.{
  Reconcile, Checked, start_reconciling, consume_reconciling, finish_reconciling,
  validate_reconciliation, parse_resolution, has_fields, check_evidence, check_approval, split_key,
  cut_colon,
}
use personal_ai_model.Ledger.Protocol.{reconcile, Meanwhile, Others}
use personal_ai_model.Ledger.Steps.{reserve_op, abort_op, step, run}
use personal_ai_model.Ledger.Phases.{Phase, phase, Recovers, Takes, step-Takes}
use personal_ai_model.Ledger.Exclusion.{Leaves, reserve-excludes, complete-reserve, completed_with}
use personal_ai_model.Ledger.Resolved.{IsResolved}
use personal_ai_model.Ledger.Crash.{recover-finish, reserve-lost_receipt}
use personal_ai_model.Ledger.Reconciled.{reconcile-keeps_approvals, IsKept}

abbrev same : Text → Text
same t = t

abbrev dumped : Evidence → Text
dumped evidence = codes "evidence"

abbrev key : Text
key = codes "mail:send:k1"

abbrev asked : Text → Reserve
asked k = record {
  key = k;
  payload_hash = codes "h";
  ttl_seconds = 300;
  owner_token = none;
  fresh_token = codes "tok";
  now = codes "t0";
  now_ts = 1000;
}

abbrev taken : List Entry
taken = new_reservation (asked key) ∷ []

abbrev lost : List Entry
lost = unknown_entry key (new_reservation (asked key)) (codes "timeout") (codes "t1") ∷ []

abbrev consent : Approval
consent = record {
  id = codes "a1";
  timestamp = codes "t1";
  expires_at = none;
  user_id = none;
  account_id = none;
  connector_scope = none;
  action = codes "send";
  target = key;
  canonical_target = key;
  reason = codes "reconcile";
  idempotency_key = none;
  before_evidence = none;
  after_evidence = none;
  reservation_token = none;
  status = approved;
  approved_at = some (codes "t1");
  reserved_at = none;
  consumed_at = none;
  updated_at = none;
  error_reason = none;
}

abbrev evidence : Evidence
evidence =
    (codes "account_id", codes "acct")
    ∷ (codes "connector", codes "mail")
    ∷ (codes "action", codes "send")
    ∷ (codes "idempotency_key", key)
    ∷ (codes "approval_id", codes "a1")
    ∷ (codes "operator_identity", codes "op")
    ∷ (codes "evidence_type", codes "log")
    ∷ (codes "evidence_reference", codes "r1")
    ∷ (codes "timestamp", codes "t1")
    ∷ (codes "resolution_reason", codes "seen")
    ∷ []

abbrev wanted : Reconcile
wanted = record {
  key = key;
  resolution = codes " Completed";
  resolution_reason = codes "seen";
  evidence = evidence;
  approval_id = codes "a1";
  receipt = some (codes "receipt");
  account_connector_scope = none;
  account_id = none;
}

abbrev checked : Checked
checked = record {
  resolution = Resolution.completed;
  approval_id = codes "a1";
  action = codes "send";
  scope = codes "mail";
  account = codes "acct";
}

abbrev spent : Approval
spent = as_consumed (some (codes "evidence")) (codes "t2") consent

abbrev quiet : Others
quiet = record { of_ledger = []; of_queue = [] }

-- Another operation is reserved between the checks and the first phase.
abbrev meanwhile : Meanwhile
meanwhile = record {
  before_start = record {
    of_ledger = reserve_op (asked (codes "mail:send:k2")) [] ∷ [];
    of_queue = [];
  };
  before_consume = quiet;
  before_finish = quiet;
}

validated : validate_reconciliation wanted (consent ∷ []) ≡ ok checked
unfolding validate_reconciliation parse_resolution text_discrete strip has_fields find
    check_evidence split_key cut_colon check_approval optional_discrete to_lower
validated = refl

started : (start_reconciling wanted checked (codes "t2") (consent ∷ []) lost).0 ≡ ok tt
unfolding start_reconciling recover_reconciling_entries recover_entry find text_discrete
started = refl

consumed_now :
    consume_reconciling same dumped wanted checked (codes "t2") (consent ∷ [])
    ≡ ok (spent, spent ∷ [])
unfolding consume_reconciling consume_action_approval find replace text_discrete optional_discrete
    markdown_escape validate_approval_scope validate_identity is_sensitive requires_external_scope
consumed_now = refl

step-Takes_example :
    (p : Phase) × Recovers (reserve_op (asked key) []) (phase (find key_of key lost)) p
    × ((p ≡ phase (find key_of key (step (reserve_op (asked key) []) lost)))
        ⊎ ((key ≡ key)
            × Takes
                (reserve_op (asked key) [])
                p
                (phase (find key_of key (step (reserve_op (asked key) []) lost)))))
step-Takes_example = step-Takes key (reserve_op (asked key) []) lost

held_found : find key_of key taken ≡ some (new_reservation (asked key))
unfolding find text_discrete
held_found = refl

other_token :
    All
      (Leaves key (new_reservation (asked key)))
      (abort_op key (codes "r") (codes "other") (codes "t1") ∷ [])
unfolding optional_discrete
other_token = (λ s. refl, tt)

reserve-excludes_example :
    (reserve
      (asked key)
      []
      (run (abort_op key (codes "r") (codes "other") (codes "t1") ∷ []) taken)).0
    ≡ err running_elsewhere
reserve-excludes_example =
    reserve-excludes (new_reservation (asked key))
      (abort_op key (codes "r") (codes "other") (codes "t1") ∷ []) taken (asked key) [] held_found
      refl other_token refl refl

completed_now : (complete key (codes "receipt") (codes "tok") (codes "t1") [] taken).0 ≡ ok tt
unfolding complete recover_reconciling_entries recover_entry find text_discrete optional_discrete
completed_now = refl

complete-reserve_example :
    (reserve (asked key) [] (
      run
        (reserve_op (asked key) [] ∷ [])
        ((complete key (codes "receipt") (codes "tok") (codes "t1") [] taken).1))).0
    ≡ ok (completed_with (codes "receipt"))
complete-reserve_example =
    complete-reserve (codes "receipt") (codes "tok") (codes "t1") [] [] taken
      (reserve_op (asked key) [] ∷ []) (asked key) completed_now

recover-finish_example :
    (e : Entry) × (find key_of key (recover_reconciling_entries (codes "t2") (consent ∷ []) lost)
      ≡ some e)
    × ((a : Entry) × (find key_of key (
            recover_reconciling_entries
              (codes "t3")
              (Lifecycle.run same [] (spent ∷ []))
              ((start_reconciling wanted checked (codes "t2") (consent ∷ []) lost).1))
          ≡ some a)
        × IsResolved Resolution.completed (codes "t3") e a)
    × ((b : Entry) × (find key_of key (
            (finish_reconciling wanted checked spent
              (codes "default")
              (codes "t3")
              ((start_reconciling wanted checked (codes "t2") (consent ∷ []) lost).1)).1)
          ≡ some b)
        × IsResolved Resolution.completed (codes "t3") e b)
recover-finish_example =
    recover-finish same dumped wanted checked (codes "default") (codes "t2") (codes "t3")
      (consent ∷ []) lost (spent, spent ∷ []) [] started consumed_now

recovered_lost :
    find key_of key (recover_reconciling_entries (codes "t2") (consent ∷ []) lost)
    ≡ some (unknown_entry key (new_reservation (asked key)) (codes "timeout") (codes "t1"))
unfolding recover_reconciling_entries recover_entry find text_discrete
recovered_lost = refl

was_consumed : approval_consumed (find id_of (codes "a1") (spent ∷ [])) ≡ true
unfolding find text_discrete
was_consumed = refl

reserve-lost_receipt_example :
    (reserve
      (asked key)
      (spent ∷ [])
      ((start_reconciling wanted checked (codes "t2") (consent ∷ []) lost).1)).0
    ≡ ok (record {
      already_completed = true;
      owner_token = none;
      receipt = none;
      re_reserved = false;
    })
reserve-lost_receipt_example =
    reserve-lost_receipt wanted checked (codes "t2") (asked key) (consent ∷ []) (spent ∷ []) lost _
      started refl was_consumed recovered_lost refl

nothing_sent :
    (reconcile same dumped
      (record wanted { evidence = [] })
      (codes "default")
      (codes "t2")
      meanwhile
      (consent ∷ [])
      lost).0
    ≡ err evidence_required
unfolding reconcile validate_reconciliation parse_resolution text_discrete strip to_lower
nothing_sent = refl

reconcile-keeps_approvals_example :
    IsKept same dumped meanwhile
      (consent ∷ [])
      (reconcile same dumped
        (record wanted { evidence = [] })
        (codes "default")
        (codes "t2")
        meanwhile
        (consent ∷ [])
        lost).2
reconcile-keeps_approvals_example =
    reconcile-keeps_approvals same dumped (record wanted { evidence = [] }) (codes "default")
      (codes "t2") meanwhile (consent ∷ []) lost evidence_required refl refl nothing_sent
