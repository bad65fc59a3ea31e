-- ===== src/Ledger/View.antt =====
-- The list of entries is, key by key, the view of its callers.
use personal_ai_model.Prelude.{
  ◌≡◌, ◌≢◌, refl, false, Option, none, some, List, arith, inl, inr, if◌then◌else◌, Option-cases,
  Bool-cases,
}
use personal_ai_model.Prelude.Text.{Text, ◌==◌, is_empty}
use personal_ai_model.Prelude.Result.{Result, ok, err}
use personal_ai_model.Prelude.Keyed.{find, assign, find-map, find-assign, key-find}
use personal_ai_model.Policy.{Approval}
use personal_ai_model.Ledger.{
  OpStatus, Entry, key_of, LedgerError, reserved, unknown_outcome, preflight_aborted,
  reconciled_cancelled, reconciled_failed, reconciled_completed, reconciling_started,
}
use personal_ai_model.Ledger.Reserve.{
  Reserve, reserve, reserve_found, reserve_status, reserve_reserved, new_reservation, is_running,
  expired, owns, recover_entry, recover_reconciling_entries, is_started,
}
use personal_ai_model.Ledger.Settle.{
  abort_preflight, complete, mark_unknown, aborted_entry, completed_entry, unknown_entry, saved,
  complete_recovered, unknown_recovered,
}
use personal_ai_model.Ledger.Reconcile.{
  Reconcile, Checked, start_reconciling, finish_reconciling, started_entry, finished_entry,
  is_unknown, start_recovered,
}
use personal_ai_model.Ledger.Steps.{
  Call, reserve_op, abort_op, complete_op, unknown_op, start_op, finish_op, step, act, recovery,
  effect, subject, recovered, move_if, held_by, reserve_entry, reserve_over, token_text,
}

key-recover :
    (now : Text) (approvals : List Approval) (e : Entry)
    → key_of (recover_entry now approvals e) ≡ key_of e
unfolding recover_entry
key-recover now approvals e = ground arith

pub find-recover :
    (now : Text) (approvals : List Approval) (j : Text) (l : List Entry)
    → find key_of j (recover_reconciling_entries now approvals l)
      ≡ recovered now approvals (find key_of j l)
unfolding recover_reconciling_entries
find-recover now approvals j l =
    find-map key_of (recover_entry now approvals) (key-recover now approvals) j l

-- A method's checks gave an entry under its key, or an error.
find-saved :
    (j key : Text) (l : List Entry) (m : Result LedgerError Entry) (o : Option Entry)
    → ((x : LedgerError) → m ≡ err x → o ≡ find key_of key l)
    → ((e : Entry) → m ≡ ok e → (e.key ≡ key) × (o ≡ some e))
    → find key_of j ((saved l m).1) ≡ (if key == j then o else find key_of j l)
find-saved j key l (err x) o h g = ground (arith, h x refl)
find-saved j key l (ok e) o h g = ground (arith, g e refl, find-assign key_of j e l)

find-abort :
    (j key reason token now : Text) (l : List Entry)
    → find key_of j ((abort_preflight key reason token now l).1) ≡ (
        if key == j
        then move_if (held_by token) (λ e. aborted_entry key e reason now) (find key_of key l)
        else find key_of j l)
unfolding abort_preflight
find-abort j key reason token now l = elim (Option-cases (find key_of key l)) [
  | inl e ↦ find-saved j key l _ _ (λ x f. ground (arith, e)) (λ x f. ground (arith, e))
  | inr (a, e) ↦ find-saved j key l _ _ (λ x f. ground (arith, e)) (λ x f. ground (arith, e))
]

find-complete_recovered :
    (j key receipt token now : Text) (l : List Entry)
    → is_empty token ≡ false
    → find key_of j ((complete_recovered key receipt token now l).1) ≡ (
        if key == j
        then move_if (held_by token) (λ e. completed_entry key e receipt now) (find key_of key l)
        else find key_of j l)
find-complete_recovered j key receipt token now l t = elim (Option-cases (find key_of key l)) [
  | inl e ↦ find-saved j key l _ _ (λ x f. ground (arith, e)) (λ x f. ground (arith, e))
  | inr (a, e) ↦ find-saved j key l _ _ (λ x f. ground (arith, e)) (λ x f. ground (arith, e))
]

find-unknown :
    (j key reason : Text) (token : Option Text) (now : Text) (l : List Entry)
    → find key_of j ((unknown_recovered key reason token now l).1) ≡ (
        if key == j
        then move_if
            (held_by (token_text token))
            (λ e. unknown_entry key e reason now)
            (find key_of key l)
        else find key_of j l)
find-unknown j key reason none now l = elim (Option-cases (find key_of key l)) [
  | inl e ↦ find-saved j key l _ _ (λ x f. ground (arith, e)) (λ x f. ground (arith, e))
  | inr (a, e) ↦ find-saved j key l _ _ (λ x f. ground (arith, e)) (λ x f. ground (arith, e))
]
find-unknown j key reason (some token) now l = elim (Option-cases (find key_of key l)) [
  | inl e ↦ find-saved j key l _ _ (λ x f. ground (arith, e)) (λ x f. ground (arith, e))
  | inr (a, e) ↦ find-saved j key l _ _ (λ x f. ground (arith, e)) (λ x f. ground (arith, e))
]

pub find-start :
    (j : Text) (q : Reconcile) (c : Checked) (now : Text) (l : List Entry)
    → find key_of j ((start_recovered q c now l).1) ≡ (
        if q.key == j
        then move_if (λ e. is_unknown e.status) (started_entry q c now) (find key_of q.key l)
        else find key_of j l)
find-start j q c now l = elim (Option-cases (find key_of q.key l)) [
  | inl e ↦ find-saved j q.key l _ _ (λ x f. ground (arith, e)) (λ x f. ground (arith, e))
  | inr (a, e) ↦
      find-saved j q.key l _ _ (λ x f. ground (arith, e))
        (λ x f. ground (arith, e, key-find key_of q.key l a e))
]

pub find-finish :
    (j : Text) (q : Reconcile) (c : Checked) (consumed : Approval) (default_receipt now : Text)
    (l : List Entry)
    → find key_of j ((finish_reconciling q c consumed default_receipt now l).1) ≡ (
        if q.key == j
        then move_if
            (λ e. is_started e.status)
            (finished_entry q c consumed default_receipt now)
            (find key_of q.key l)
        else find key_of j l)
unfolding finish_reconciling
find-finish j q c consumed default_receipt now l = elim (Option-cases (find key_of q.key l)) [
  | inl e ↦ find-saved j q.key l _ _ (λ x f. ground (arith, e)) (λ x f. ground (arith, e))
  | inr (a, e) ↦
      find-saved j q.key l _ _ (λ x f. ground (arith, e))
        (λ x f. ground (arith, e, key-find key_of q.key l a e))
]

find-assigned :
    (j : Text) (v : Entry) (l : List Entry) (key : Text)
    → v.key ≡ key
    → find key_of j (assign key_of v l) ≡ (if key == j then some v else find key_of j l)
find-assigned j v l key h = ground (arith, h, find-assign key_of j v l)

same_or :
    (j key : Text) (a : Entry) (l : List Entry)
    → find key_of key l ≡ some a
    → find key_of j l ≡ (if key == j then some a else find key_of j l)
same_or j key a l e = ground (arith, e)

find-reserve_status :
    (j : Text) (q : Reserve) (l : List Entry) (s : OpStatus) (a : Entry)
    → find key_of q.key l ≡ some a
    → find key_of j ((reserve_status s q a l).1)
      ≡ (if q.key == j then some (reserve_over s q a) else find key_of j l)
unfolding reserve_status reserve_reserved
find-reserve_status j q l OpStatus.completed a e = same_or j q.key a l e
find-reserve_status j q l reconciled_completed a e = same_or j q.key a l e
find-reserve_status j q l reconciling_started a e = same_or j q.key a l e
find-reserve_status j q l unknown_outcome a e = same_or j q.key a l e
find-reserve_status j q l preflight_aborted a e = find-assign key_of j (new_reservation q) l
find-reserve_status j q l reconciled_cancelled a e = find-assign key_of j (new_reservation q) l
find-reserve_status j q l reconciled_failed a e = find-assign key_of j (new_reservation q) l
find-reserve_status j q l reserved a e = elim (Bool-cases (is_running q a)) [
  | inl r ↦ elim (Bool-cases (owns q a)) [
    | inl o ↦ rw (reserve_reserved, r, o) (same_or j q.key a l e)
    | inr o ↦ rw (reserve_reserved, r, o) (same_or j q.key a l e)
  ]
  | inr r ↦
      rw (reserve_reserved, r)
        (find-assigned j (expired q.now a) l q.key (key-find key_of q.key l a e))
]

find-reserve :
    (j : Text) (q : Reserve) (l : List Entry)
    → find key_of j ((reserve_found q l).1)
      ≡ (if q.key == j then reserve_entry q (find key_of q.key l) else find key_of j l)
unfolding reserve_found
find-reserve j q l = elim (Option-cases (find key_of q.key l)) [
  | inl e ↦ rw (reserve_found, e) (ground (arith, e, find-assign key_of j (new_reservation q) l))
  | inr (a, e) ↦ rw (reserve_found, e) (find-reserve_status j q l a.status a e)
]

-- Under each key, the ledger after a call is what `act` makes of the entry before it: the list of
-- entries, with its lookups, its assignments and its recovery in passing, is a ledger of each key alone.
pub find-step :
    (j : Text) (c : Call) (l : List Entry) → find key_of j (step c l) ≡ act j c (find key_of j l)
unfolding step act reserve complete mark_unknown start_reconciling
find-step j (reserve_op q approvals) l = ground (
  arith,
  find-reserve j q (recover_reconciling_entries q.now approvals l),
  find-recover q.now approvals j l,
)
find-step j (abort_op key reason token now) l = ground (arith, find-abort j key reason token now l)
find-step j (complete_op key receipt token now approvals) l = elim (Bool-cases (is_empty token)) [
  | inl t ↦ rw (t) (ground (arith, t))
  | inr t ↦ rw (t) (
      ground (
        arith,
        t,
        find-complete_recovered j key receipt token now
            (recover_reconciling_entries now approvals l) t,
        find-recover now approvals j l,
      ))
]
find-step j (unknown_op key reason token now approvals) l = ground (
  arith,
  find-unknown j key reason token now (recover_reconciling_entries now approvals l),
  find-recover now approvals j l,
)
find-step j (start_op q c now approvals) l = ground (
  arith,
  find-start j q c now (recover_reconciling_entries now approvals l),
  find-recover now approvals j l,
)
find-step j (finish_op q c consumed default_receipt now) l =
    ground (arith, find-finish j q c consumed default_receipt now l)

pub act-same :
    (j : Text) (c : Call) (o : Option Entry) → subject c ≡ j → act j c o ≡ effect c (recovery c o)
unfolding act
act-same j c o h = ground arith

pub act-other : (j : Text) (c : Call) (o : Option Entry) → subject c ≢ j → act j c o ≡ recovery c o
unfolding act
act-other j c o h = ground arith
