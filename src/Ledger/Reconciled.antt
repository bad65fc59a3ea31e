-- ===== src/Ledger/Reconciled.antt =====
-- What a whole reconciliation does, whatever other processes call between its parts.
use personal_ai_model.Prelude.{◌⊎◌, ◌≡◌, refl, some, List, [], inl, inr}
use personal_ai_model.Prelude.Text.{Text}
use personal_ai_model.Prelude.Result.{Result, ok, err, Result-cases}
use personal_ai_model.Prelude.Keyed.{find}
use personal_ai_model.Policy.{Approval}
use personal_ai_model.Policy.Lifecycle.{IsSpent}
use personal_ai_model.Ledger.{
  Answer, reconciling_started, unknown_outcome, OpStatus, Evidence, Entry, LedgerError, key_of,
}
use personal_ai_model.Ledger.Reserve.{reconciled_as, recover_reconciling_entries}
use personal_ai_model.Ledger.Reconcile.{
  Reconcile, Checked, validate_reconciliation, start_reconciling, consume_reconciling,
  finish_reconciling, started_entry,
}
use personal_ai_model.Ledger.Steps
use personal_ai_model.Ledger.Protocol.{
  reconcile, Reconciled, Meanwhile, Others, ledger_after, queue_after,
}
use personal_ai_model.Ledger.Asked.{Asks}
use personal_ai_model.Ledger.Resolved.{EndsAs, IsResolved}
use personal_ai_model.Ledger.Crash.{start-find}

-- The last phase succeeds where the entry that the first one left is still there.
finish-started :
    (q : Reconcile) (c : Checked) (consumed : Approval) (default_receipt now now' : Text)
    (e : Entry) (l : List Entry)
    → find key_of q.key l ≡ some (started_entry q c now e)
    → (finish_reconciling q c consumed default_receipt now' l).0 ≡ ok tt
unfolding finish_reconciling
finish-started q c consumed default_receipt now now' e l f = rw (f) refl

-- Nothing is changed where nobody calls.
ledger_after-quiet : (o : Others) (l : List Entry) → o.of_ledger ≡ [] → ledger_after o l ≡ l
unfolding Steps.run
ledger_after-quiet o l h = rw (h) refl

err-ok : (a : Result LedgerError (Unit {0})) (x : LedgerError) → a ≡ err x → ¬ (a ≡ ok tt)
err-ok a x e f = cc

module _ (sanitize : Text → Text) (dumps : Evidence → Text) where
  module _ {ℓ} (P : Reconciled → Type ℓ) (q : Reconcile) (default_receipt now : Text)
      (m : Meanwhile) (approvals : List Approval) (l : List Entry) where
    abbrev queue₁ : List Approval
    queue₁ = queue_after sanitize m.before_start approvals

    abbrev queue₂ : List Approval
    queue₂ = queue_after sanitize m.before_consume queue₁

    abbrev started : Checked → Answer (Unit {0})
    started c = start_reconciling q c now queue₁ (ledger_after m.before_start l)

    abbrev finished : Checked → Approval → Answer (Unit {0})
    finished c consumed =
        finish_reconciling q c consumed default_receipt now
          (ledger_after m.before_finish (ledger_after m.before_consume (started c).1))

    module _ (refused_now : (x : LedgerError) → P (err x, l, approvals))
        (not_started : (x : LedgerError) (c : Checked) → P (err x, (started c).1, queue₁))
        (not_consumed : (x : LedgerError) (c : Checked)
          → P (err x, ledger_after m.before_consume (started c).1, queue₂))
        (not_finished : (x : LedgerError) (c : Checked) (w : Approval × List Approval)
          → (started c).0 ≡ ok tt
          → (finished c w.0).0 ≡ err x
          → P (err x, (finished c w.0).1, queue_after sanitize m.before_finish w.1))
        (all_done : (c : Checked) (w : Approval × List Approval)
          → validate_reconciliation q approvals ≡ ok c
          → (started c).0 ≡ ok tt
          → consume_reconciling sanitize dumps q c now queue₂ ≡ ok w
          → (finished c w.0).0 ≡ ok tt
          → P (
            ok (reconciled_as c.resolution),
            (finished c w.0).1,
            queue_after sanitize m.before_finish w.1,
          )) where
      consumed_cases :
          (c : Checked) (w : Approval × List Approval)
          → validate_reconciliation q approvals ≡ ok c
          → (started c).0 ≡ ok tt
          → consume_reconciling sanitize dumps q c now queue₂ ≡ ok w
          → P (reconcile sanitize dumps q default_receipt now m approvals l)
      unfolding reconcile
      consumed_cases c w e s k = elim (Result-cases ((finished c w.0).0)) [
        | inl (y, f) ↦ rw (reconcile, e, s, k, f) (not_finished y c w s f)
        | inr (_, f) ↦ rw (reconcile, e, s, k, f) (all_done c w e s k f)
      ]

      -- Where it may end: at the checks, at each of the three phases, or with its answer.
      pub reconcile_cases : P (reconcile sanitize dumps q default_receipt now m approvals l)
      unfolding reconcile
      reconcile_cases = elim (Result-cases (validate_reconciliation q approvals)) [
        | inl (y, e) ↦ rw (reconcile, e) (refused_now y)
        | inr (c, e) ↦ elim (Result-cases ((started c).0)) [
          | inl (y, s) ↦ rw (reconcile, e, s) (not_started y c)
          | inr (_, s) ↦ elim (Result-cases (consume_reconciling sanitize dumps q c now queue₂)) [
            | inl (y, k) ↦ rw (reconcile, e, s, k) (not_consumed _ c)
            | inr (w, k) ↦ consumed_cases c w e s k
          ]
        ]
      ]

  -- The queue is what other processes have made of it, up to one of the parts.
  abbrev pub IsKept : Meanwhile → List Approval → List Approval → Type 0
  IsKept m approvals left =
      (left ≡ approvals)
      ⊎ ((left ≡ queue_after sanitize m.before_start approvals)
          ⊎ (left
              ≡ queue_after sanitize m.before_consume
                  (queue_after sanitize m.before_start approvals)))

  -- Where no other process calls the ledger between the first phase and the last, a reconciliation that
  -- raises has consumed no approval: the queue is what the calls of other processes on it have left,
  -- those before the first phase and those before the second, or what it was.
  pub reconcile-keeps_approvals :
      (q : Reconcile) (default_receipt now : Text) (m : Meanwhile) (approvals : List Approval)
      (l : List Entry) (x : LedgerError)
      → m.before_consume.of_ledger ≡ []
      → m.before_finish.of_ledger ≡ []
      → (reconcile sanitize dumps q default_receipt now m approvals l).0 ≡ err x
      → IsKept m approvals (reconcile sanitize dumps q default_receipt now m approvals l).2
  reconcile-keeps_approvals q default_receipt now m approvals l x none_consume none_finish =
      reconcile_cases (λ r. r.0 ≡ err x → IsKept m approvals r.2) q default_receipt now m approvals
        l (λ y h. inl refl) (λ y c h. inr (inl refl)) (λ y c h. inr (inr refl))
        (λ y c w s f h. absurd (err-ok _ y f (unmoved c w s))) (λ c w e s k f h. cc)
    where
      unmoved :
          (c : Checked) (w : Approval × List Approval)
          → (start_reconciling q c now
              (queue_after sanitize m.before_start approvals)
              (ledger_after m.before_start l)).0
            ≡ ok tt
          → (finish_reconciling q c w.0 default_receipt now (
              ledger_after m.before_finish (
                ledger_after m.before_consume (
                  (start_reconciling q c now
                    (queue_after sanitize m.before_start approvals)
                    (ledger_after m.before_start l)).1)))).0
            ≡ ok tt
      unmoved c w s =
          let (a, found, u, g) = start-find q c now _ _ s in
          rw
            (
              ledger_after-quiet m.before_finish _ none_finish,
              ledger_after-quiet m.before_consume _ none_consume,
            )
            (finish-started q c w.0 default_receipt now now a _ g)

  -- What a reconciliation that returns has done to the ledger and to the queue.
  abbrev pub IsReconciled :
      Reconcile
      → Text
      → Meanwhile
      → List Approval
      → List Entry
      → OpStatus
      → List Entry
      → List Approval
      → Type 0
  IsReconciled q now m approvals l s after left =
      (c : Checked) × Asks q approvals c
      × IsSpent c.approval_id left
      × EndsAs c.resolution s
      × ((e : Entry) × (find key_of q.key (
              recover_reconciling_entries now (queue_after sanitize m.before_start approvals)
                (ledger_after m.before_start l))
            ≡ some e)
          × (e.status ≡ unknown_outcome))
      × ((e : Entry) × (find key_of q.key (
              ledger_after m.before_finish (
                ledger_after m.before_consume (
                  (start_reconciling q c now (queue_after sanitize m.before_start approvals)
                    (ledger_after m.before_start l)).1)))
            ≡ some e)
          × (e.status ≡ reconciling_started)
          × ((b : Entry) × (find key_of q.key after ≡ some b) × IsResolved c.resolution now e b))
