-- ===== src/Ledger/Steps.antt =====
-- The calls on the ledger as steps in any order. Each locked part of `reconcile` is a step of its own, so
-- that other processes may come between its phases.
use personal_ai_model.Prelude.{
  Bool, true, false, not, ◌&&◌, Option, none, some, List, [], ◌∷◌, if◌then◌else◌,
}
use personal_ai_model.Prelude.Text.{Text, ◌==◌, is_empty}
use personal_ai_model.Prelude.Keyed.{applied}
use personal_ai_model.Policy.{Approval}
use personal_ai_model.Ledger.{
  OpStatus, Entry, key_of, reserved, preflight_aborted, reconciled_cancelled, reconciled_failed,
}
use personal_ai_model.Ledger.Reserve.{
  Reserve, reserve, new_reservation, is_running, expired, recover_entry, is_started,
}
use personal_ai_model.Ledger.Settle.{
  abort_preflight, complete, mark_unknown, is_foreign, aborted_entry, completed_entry,
  unknown_entry,
}
use personal_ai_model.Ledger.Reconcile.{
  Reconcile, Checked, start_reconciling, finish_reconciling, started_entry, finished_entry,
  is_unknown,
}

-- A call, with the clock and the approval queue as it reads them.
pub data Call : Type 0 where
  reserve_op : Reserve → List Approval → Call
  abort_op : (key reason token now : Text) → Call
  complete_op : (key receipt token now : Text) → List Approval → Call
  unknown_op : (key reason : Text) → Option Text → Text → List Approval → Call
  start_op : Reconcile → Checked → Text → List Approval → Call
  finish_op : Reconcile → Checked → Approval → (default_receipt now : Text) → Call

unfoldable pub step : Call → List Entry → List Entry
step (reserve_op q approvals) l = (reserve q approvals l).1
step (abort_op key reason token now) l = (abort_preflight key reason token now l).1
step (complete_op key receipt token now approvals) l =
    (complete key receipt token now approvals l).1
step (unknown_op key reason token now approvals) l =
    (mark_unknown key reason token now approvals l).1
step (start_op q c now approvals) l = (start_reconciling q c now approvals l).1
step (finish_op q c consumed default_receipt now) l =
    (finish_reconciling q c consumed default_receipt now l).1

unfoldable pub run : List Call → List Entry → List Entry
run [] l = l
run (c ∷ cs) l = run cs (step c l)

-- One key, on its own: what each call makes of its entry. This is the ledger as its callers know it,
-- with no list, no lock and no error.
abbrev pub is_held : OpStatus → Bool
is_held reserved = true
is_held _ = false

abbrev pub reserve_over : OpStatus → Reserve → Entry → Entry
reserve_over reserved q e = if is_running q e then e else expired q.now e
reserve_over preflight_aborted q e = new_reservation q
reserve_over reconciled_cancelled q e = new_reservation q
reserve_over reconciled_failed q e = new_reservation q
reserve_over _ q e = e

abbrev pub reserve_entry : Reserve → Option Entry → Option Entry
reserve_entry q none = some (new_reservation q)
reserve_entry q (some e) = some (reserve_over e.status q e)

-- The holder of the reservation ends it.
abbrev pub held_by : Text → Entry → Bool
held_by token e = is_held e.status && not (is_empty token) && not (is_foreign e (some token))

abbrev pub token_text : Option Text → Text
token_text none = []
token_text (some t) = t

abbrev pub move_if : (Entry → Bool) → (Entry → Entry) → Option Entry → Option Entry
move_if test f none = none
move_if test f (some e) = some (if test e then f e else e)

abbrev pub recovered : Text → List Approval → Option Entry → Option Entry
recovered now approvals = applied key_of (recover_entry now approvals)

-- The key that a call is about.
abbrev pub subject : Call → Text
subject (reserve_op q approvals) = q.key
subject (abort_op key reason token now) = key
subject (complete_op key receipt token now approvals) = key
subject (unknown_op key reason token now approvals) = key
subject (start_op q c now approvals) = q.key
subject (finish_op q c consumed default_receipt now) = q.key

-- The recovery that a call runs over the whole ledger.
abbrev pub recovery : Call → Option Entry → Option Entry
recovery (reserve_op q approvals) o = recovered q.now approvals o
recovery (abort_op key reason token now) o = o
recovery (complete_op key receipt token now approvals) o =
    if is_empty token then o else recovered now approvals o
recovery (unknown_op key reason token now approvals) o = recovered now approvals o
recovery (start_op q c now approvals) o = recovered now approvals o
recovery (finish_op q c consumed default_receipt now) o = o

-- What it then does to the entry under its own key.
abbrev pub effect : Call → Option Entry → Option Entry
effect (reserve_op q approvals) o = reserve_entry q o
effect (abort_op key reason token now) o =
    move_if (held_by token) (λ e. aborted_entry key e reason now) o
effect (complete_op key receipt token now approvals) o =
    move_if (held_by token) (λ e. completed_entry key e receipt now) o
effect (unknown_op key reason token now approvals) o =
    move_if (held_by (token_text token)) (λ e. unknown_entry key e reason now) o
effect (start_op q c now approvals) o = move_if (λ e. is_unknown e.status) (started_entry q c now) o
effect (finish_op q c consumed default_receipt now) o =
    move_if (λ e. is_started e.status) (finished_entry q c consumed default_receipt now) o

unfoldable pub act : Text → Call → Option Entry → Option Entry
act j c o = if subject c == j then effect c (recovery c o) else recovery c o
