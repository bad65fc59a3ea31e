-- ===== src/Ledger/Crash.antt =====
-- A reconciliation that stops between its phases: what the recovery of the next call makes of it.
use personal_ai_model.Prelude.{
  ◌≡◌, refl, ◌∙◌, Bool, true, false, none, some, List, [], ◌∷◌, arith, inl, inr, if◌then◌else◌,
  Option-cases,
}
use personal_ai_model.Prelude.Text.{Text, text_or, codes}
use personal_ai_model.Prelude.Result.{ok}
use personal_ai_model.Prelude.Keyed.{find}
use personal_ai_model.Policy.{Approval, id_of}
use personal_ai_model.Policy.Lifecycle
use personal_ai_model.Policy.Lifecycle.{IsSpent, run-IsSpent, consume_ok-IsSpent}
use personal_ai_model.Ledger.{Resolution, Evidence, Entry, key_of, unknown_outcome}
use personal_ai_model.Ledger.Reserve.{
  Reserve, reserve, reserve_found, reserve_status, recover_entry, recovered_forward, rolled_back,
  recover_reconciling_entries, approval_consumed,
}
use personal_ai_model.Ledger.Reconcile.{
  Reconcile, Checked, start_reconciling, start_recovered, started_entry, consume_reconciling,
  finish_reconciling,
}
use personal_ai_model.Ledger.View.{find-recover, find-start}
use personal_ai_model.Ledger.Resolved.{
  IsResolved, finish-IsResolved, reconciled_as-EndsAs, completion_time-CompletedAt,
}

start_ok-find :
    (q : Reconcile) (c : Checked) (now : Text) (l : List Entry)
    → (start_recovered q c now l).0 ≡ ok tt
    → (e : Entry) × (find key_of q.key l ≡ some e)
      × (e.status ≡ unknown_outcome)
      × (find key_of q.key ((start_recovered q c now l).1) ≡ some (started_entry q c now e))
start_ok-find q c now l h = elim (Option-cases (find key_of q.key l)) [
  | inl e ↦ absurd (ground (arith, e))
  | inr (a, e) ↦
      let u : a.status ≡ unknown_outcome = ground (arith, e) in
      (a, e, u, ground (arith, e, u, find-start q.key q c now l))
]

-- The entry that phase 1 leaves.
pub start-find :
    (q : Reconcile) (c : Checked) (now : Text) (approvals : List Approval) (l : List Entry)
    → (start_reconciling q c now approvals l).0 ≡ ok tt
    → (e : Entry) × (find key_of q.key (recover_reconciling_entries now approvals l) ≡ some e)
      × (e.status ≡ unknown_outcome)
      × (find key_of q.key ((start_reconciling q c now approvals l).1)
          ≡ some (started_entry q c now e))
unfolding start_reconciling
start-find q c now approvals l h = start_ok-find q c now _ h

text_or-empty : (s : Text) → text_or (some s) (codes "") ≡ s
text_or-empty [] = refl
text_or-empty (c ∷ s) = refl

recover-started :
    (q : Reconcile) (c : Checked) (now now' : Text) (approvals : List Approval) (e : Entry)
    (b : Bool)
    → approval_consumed (find id_of c.approval_id approvals) ≡ b
    → recover_entry now' approvals (started_entry q c now e) ≡ (
        if b
        then recovered_forward now' (started_entry q c now e)
        else rolled_back now' (started_entry q c now e))
unfolding recover_entry
recover-started q c now now' approvals e b h =
    rw (recover_entry, text_or-empty c.approval_id, h) refl

IsSpent-consumed :
    (id : Text) (approvals : List Approval)
    → IsSpent id approvals
    → approval_consumed (find id_of id approvals) ≡ true
IsSpent-consumed id approvals (a, f, h) = rw (f, h) refl

-- What the next recovery finds under the key.
find-recover_started :
    (q : Reconcile) (c : Checked) (now now' : Text) (approvals approvals' : List Approval)
    (l : List Entry) (b : Bool)
    → (start_reconciling q c now approvals l).0 ≡ ok tt
    → approval_consumed (find id_of c.approval_id approvals') ≡ b
    → (e : Entry) × (find key_of q.key (recover_reconciling_entries now approvals l) ≡ some e)
      × (find key_of q.key (
            recover_reconciling_entries now' approvals' ((start_reconciling q c now approvals l).1))
          ≡ some (
              if b
              then recovered_forward now' (started_entry q c now e)
              else rolled_back now' (started_entry q c now e)))
find-recover_started q c now now' approvals approvals' l b h d =
    let (e, f, u, g) = start-find q c now approvals l h in
    (
      e,
      f,
      find-recover now' approvals' q.key _
          ∙ rw (g, recover-started q c now now' approvals' e b d) refl,
    )

module _ (sanitize : Text → Text) (dumps : Evidence → Text) where
  -- Where a reconciliation crashes after its approval is consumed, the next recovery gives the
  -- operation the status and the times that the last phase would have given it, whatever else is done
  -- with the approvals meanwhile: the status of its resolution, the time of completion where it is
  -- completed, and the time of the reconciliation. This says nothing of its receipt.
  pub recover-finish :
      (q : Reconcile) (c : Checked) (default_receipt now now' : Text) (approvals : List Approval)
      (l : List Entry) (w : Approval × List Approval) (calls : List Lifecycle.Call)
      → (start_reconciling q c now approvals l).0 ≡ ok tt
      → consume_reconciling sanitize dumps q c now approvals ≡ ok w
      → (e : Entry) × (find key_of q.key (recover_reconciling_entries now approvals l) ≡ some e)
        × ((a : Entry) × (find key_of q.key (
                recover_reconciling_entries now'
                  (Lifecycle.run sanitize calls w.1)
                  ((start_reconciling q c now approvals l).1))
              ≡ some a)
            × IsResolved c.resolution now' e a)
        × ((b : Entry) × (find key_of q.key (
                (finish_reconciling q c w.0 default_receipt now'
                  ((start_reconciling q c now approvals l).1)).1)
              ≡ some b)
            × IsResolved c.resolution now' e b)
  unfolding consume_reconciling
  recover-finish q c default_receipt now now' approvals l w calls h k =
      let spent =
        run-IsSpent sanitize c.approval_id calls w.1
          (consume_ok-IsSpent sanitize c.approval_id _ _ now approvals w k) in
      let (e, f, u, g) = start-find q c now approvals l h in
      let (e', f', g') =
        find-recover_started q c now now' approvals _ l true h
          (IsSpent-consumed c.approval_id _ spent) in
      let same : e' ≡ e = cc in
      (
        e,
        f,
        (
          recovered_forward now' (started_entry q c now e),
          g' ∙ rw (same) refl,
          (
            reconciled_as-EndsAs c.resolution,
            completion_time-CompletedAt c.resolution now' e.completed_at,
            refl,
            refl,
            refl,
            refl,
            refl,
          ),
        ),
        finish-IsResolved q c w.0 default_receipt now' (started_entry q c now e) _ g refl,
      )

-- A crash before the consumption costs nothing: the next call rolls the operation back, and its
-- reconciliation can be started again, whatever has been checked for it.
pub start-again :
    (q : Reconcile) (c c' : Checked) (now now' : Text) (approvals approvals' : List Approval)
    (l : List Entry)
    → (start_reconciling q c now approvals l).0 ≡ ok tt
    → approval_consumed (find id_of c.approval_id approvals') ≡ false
    → (start_reconciling q c' now' approvals' ((start_reconciling q c now approvals l).1)).0 ≡ ok tt
unfolding start_reconciling
start-again q c c' now now' approvals approvals' l h d =
    let (e, f, g) = find-recover_started q c now now' approvals approvals' l false h d in
    rw (g) refl

-- Where a crash follows the consumption of a reconciliation as completed, the recovery drops the receipt
-- that it was given: the next reservation answers that the operation is completed, with the receipt of
-- the entry as it was before.
pub reserve-lost_receipt :
    (q : Reconcile) (c : Checked) (now : Text) (r : Reserve) (approvals approvals' : List Approval)
    (l : List Entry) (e : Entry)
    → (start_reconciling q c now approvals l).0 ≡ ok tt
    → c.resolution ≡ Resolution.completed
    → approval_consumed (find id_of c.approval_id approvals') ≡ true
    → find key_of q.key (recover_reconciling_entries now approvals l) ≡ some e
    → r.key ≡ q.key
    → (reserve r approvals' ((start_reconciling q c now approvals l).1)).0
      ≡ ok (record {
        already_completed = true;
        owner_token = none;
        receipt = e.receipt;
        re_reserved = false;
      })
unfolding reserve reserve_found reserve_status
reserve-lost_receipt q c now r approvals approvals' l e h z d f s =
    let (e', f', g) = find-recover_started q c now r.now approvals approvals' l true h d in
    let same : e' ≡ e = cc in rw (reserve_found, s, g, z, same) refl
