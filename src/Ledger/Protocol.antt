-- ===== src/Ledger/Protocol.antt =====
-- `reconcile` of IdempotencyLedger as a whole: the checks, then the three phases. The code holds the lock
-- of the ledger in the first phase and in the last, and that of the queue in the second; between them other
-- processes may call the ledger and the queue.
use personal_ai_model.Prelude.{List}
use personal_ai_model.Prelude.Text.{Text}
use personal_ai_model.Prelude.Result.{Result, ok, err}
use personal_ai_model.Policy.{Approval, Written}
use personal_ai_model.Policy.Lifecycle
use personal_ai_model.Ledger.{OpStatus, Evidence, Entry, LedgerError, Answer, refused}
use personal_ai_model.Ledger.Reserve.{reconciled_as}
use personal_ai_model.Ledger.Reconcile.{
  Reconcile, Checked, validate_reconciliation, start_reconciling, consume_reconciling,
  finish_reconciling,
}
use personal_ai_model.Ledger.Steps
use personal_ai_model.Ledger.Steps.{Call}

-- What other processes call between two parts of a reconciliation.
pub record Others : Type 0 where
  pub of_ledger : List Call
  pub of_queue : List Lifecycle.Call

pub record Meanwhile : Type 0 where
  pub before_start : Others
  pub before_consume : Others
  pub before_finish : Others

abbrev pub ledger_after : Others → List Entry → List Entry
ledger_after o ledger = Steps.run o.of_ledger ledger

-- The answer of the whole call, the ledger and the queue that it leaves.
abbrev pub Reconciled : Type 0
Reconciled = Result LedgerError OpStatus × List Entry × List Approval

abbrev pub queue_after : (Text → Text) → Others → List Approval → List Approval
queue_after sanitize o approvals = Lifecycle.run sanitize o.of_queue approvals

module _ (sanitize : Text → Text) (dumps : Evidence → Text) where
  abbrev pub answer_finish : Checked → List Approval → Answer (Unit {0}) → Reconciled
  answer_finish c approvals a = elim a.0 [
    | err x ↦ (err x, a.1, approvals)
    | ok done ↦ (ok (reconciled_as c.resolution), a.1, approvals)
  ]

  abbrev pub then_finish :
      Reconcile → Checked → Text → Text → Others → List Approval → List Entry → Written → Reconciled
  then_finish q c default_receipt now o approvals ledger (err x) =
      (err (refused x), ledger, approvals)
  then_finish q c default_receipt now o approvals ledger (ok w) =
      answer_finish c (queue_after sanitize o w.1)
        (finish_reconciling q c w.0 default_receipt now (ledger_after o ledger))

  abbrev pub then_consume :
      Reconcile → Checked → Text → Text → Meanwhile → List Approval → Answer (Unit {0}) → Reconciled
  then_consume q c default_receipt now m approvals a = elim a.0 [
    | err x ↦ (err x, a.1, approvals)
    | ok done ↦
        let queue = queue_after sanitize m.before_consume approvals in
        then_finish q c default_receipt now m.before_finish queue
          (ledger_after m.before_consume a.1) (consume_reconciling sanitize dumps q c now queue)
  ]

  -- The call, and what other processes do meanwhile.
  unfoldable pub reconcile :
      Reconcile → Text → Text → Meanwhile → List Approval → List Entry → Reconciled
  reconcile q default_receipt now m approvals ledger = elim (validate_reconciliation q approvals) [
    | err x ↦ (err x, ledger, approvals)
    | ok c ↦
        let queue = queue_after sanitize m.before_start approvals in
        then_consume q c default_receipt now m queue
          (start_reconciling q c now queue (ledger_after m.before_start ledger))
  ]
