-- ===== src/Ledger/Exclusion.antt =====
-- What the ledger promises to the one that runs an operation, and to the ones that come after it.
use personal_ai_model.Prelude.{
  ◌≡◌, refl, ◌∙◌, Bool, true, false, none, some, List, [], ◌∷◌, arith, inl, inr, All, Bool-cases,
  Option-cases,
}
use personal_ai_model.Prelude.Text.{Text, text_discrete, is_empty}
use personal_ai_model.Prelude.Result.{ok, err}
use personal_ai_model.Prelude.Keyed.{find, find-assign}
use personal_ai_model.Policy.{Approval}
use personal_ai_model.Ledger.{
  OpStatus, Entry, key_of, reserved, reconciled_completed, running_elsewhere,
}
use personal_ai_model.Ledger.Reserve.{
  Reserve, Reservation, reserve, reserve_found, reserve_status, reserve_reserved, is_running, owns,
  recover_entry, recover_reconciling_entries, is_started,
}
use personal_ai_model.Ledger.Settle.{is_foreign, complete, completed_entry, complete_recovered}
use personal_ai_model.Ledger.Steps.{
  Call, reserve_op, abort_op, complete_op, unknown_op, start_op, finish_op, step, run, act, subject,
  recovery, effect,
}
use personal_ai_model.Ledger.View.{find-step, find-recover, act-same, act-other}

-- The recovery leaves every entry that is not being reconciled.
recovery-still : (c : Call) (e : Entry) → is_started e.status ≡ false → recovery c (some e) ≡ some e
unfolding recover_entry
recovery-still (reserve_op q approvals) e h = ground arith
recovery-still (abort_op key reason token now) e h = refl
recovery-still (complete_op key receipt token now approvals) e h = ground arith
recovery-still (unknown_op key reason token now approvals) e h = ground arith
recovery-still (start_op q c now approvals) e h = ground arith
recovery-still (finish_op q c consumed default_receipt now) e h = refl

pub find-recovered :
    (now : Text) (approvals : List Approval) (j : Text) (l : List Entry) (e : Entry)
    → find key_of j l ≡ some e
    → is_started e.status ≡ false
    → find key_of j (recover_reconciling_entries now approvals l) ≡ some e
unfolding recover_entry
find-recovered now approvals j l e f h = find-recover now approvals j l ∙ rw (f) (ground arith)

-- The outcome of the operation is final.
abbrev pub is_done : OpStatus → Bool
is_done OpStatus.completed = true
is_done reconciled_completed = true
is_done _ = false

-- The call does not end the reservation: it has another token, or comes before the deadline.
abbrev pub leaves : Entry → Call → Bool
leaves e (reserve_op q approvals) = is_running q e
leaves e (abort_op key reason token now) = is_foreign e (some token)
leaves e (complete_op key receipt token now approvals) = is_foreign e (some token)
leaves e (unknown_op key reason token now approvals) = is_foreign e token
leaves e (start_op q c now approvals) = true
leaves e (finish_op q c consumed default_receipt now) = true

abbrev pub Leaves : Text → Entry → Call → Type 0
Leaves j e c = subject c ≡ j → leaves e c ≡ true

effect-done : (c : Call) (e : Entry) → is_done e.status ≡ true → effect c (some e) ≡ some e
effect-done (reserve_op q approvals) e h = ground arith
effect-done (abort_op key reason token now) e h = ground arith
effect-done (complete_op key receipt token now approvals) e h = ground arith
effect-done (unknown_op key reason token now approvals) e h = ground arith
effect-done (start_op q c now approvals) e h = ground arith
effect-done (finish_op q c consumed default_receipt now) e h = ground arith

effect-leaves :
    (c : Call) (e : Entry) → e.status ≡ reserved → leaves e c ≡ true → effect c (some e) ≡ some e
effect-leaves (reserve_op q approvals) e r h = ground arith
effect-leaves (abort_op key reason token now) e r h = ground arith
effect-leaves (complete_op key receipt token now approvals) e r h = ground arith
effect-leaves (unknown_op key reason none now approvals) e r h = ground arith
effect-leaves (unknown_op key reason (some token) now approvals) e r h = ground arith
effect-leaves (start_op q c now approvals) e r h = ground arith
effect-leaves (finish_op q c consumed default_receipt now) e r h = ground arith

-- An entry that neither a recovery nor the call itself moves.
act-still :
    (j : Text) (c : Call) (e : Entry)
    → is_started e.status ≡ false
    → (subject c ≡ j → effect c (some e) ≡ some e)
    → act j c (some e) ≡ some e
act-still j c e n h = elim (text_discrete (subject c) j) [
  | yes s ↦ act-same j c (some e) s ∙ rw (recovery-still c e n) (h s)
  | no s ↦ act-other j c (some e) s ∙ recovery-still c e n
]

-- Once an operation is completed, its entry is never changed again, whatever calls follow.
pub run-done :
    (j : Text) (e : Entry) (cs : List Call) (l : List Entry)
    → is_done e.status ≡ true
    → find key_of j l ≡ some e
    → find key_of j (run cs l) ≡ some e
unfolding run
run-done j e [] l h f = f
run-done j e (c ∷ cs) l h f =
    run-done j e cs (step c l) h
      (find-step j c l ∙ rw (f) (act-still j c e (ground arith) (λ s. effect-done c e h)))

run-Leaves :
    (j : Text) (e : Entry) (cs : List Call) (l : List Entry)
    → e.status ≡ reserved
    → All (Leaves j e) cs
    → find key_of j l ≡ some e
    → find key_of j (run cs l) ≡ some e
unfolding run
run-Leaves j e [] l r h f = f
run-Leaves j e (c ∷ cs) l r (g, h) f =
    run-Leaves j e cs (step c l) r h
      (find-step j c l ∙ rw (f) (act-still j c e (rw (r) refl) (λ s. effect-leaves c e r (g s))))

-- While an operation runs under an owner's token, and before its deadline, nobody else is given it:
-- after any calls that have other tokens or come before the deadline, a reservation by another caller
-- is refused.
pub reserve-excludes :
    (e : Entry) (cs : List Call) (l : List Entry) (q : Reserve) (approvals : List Approval)
    → find key_of q.key l ≡ some e
    → e.status ≡ reserved
    → All (Leaves q.key e) cs
    → is_running q e ≡ true
    → owns q e ≡ false
    → (reserve q approvals (run cs l)).0 ≡ err running_elsewhere
unfolding reserve reserve_found reserve_status reserve_reserved
reserve-excludes e cs l q approvals f r h running other =
    rw
      (
        reserve_found,
        find-recovered q.now approvals q.key (run cs l) e (run-Leaves q.key e cs l r h f)
            (rw (r) refl),
        r,
        running,
        other,
      )
      refl

abbrev pub completed_with : Text → Reservation
completed_with receipt = record {
  already_completed = true;
  owner_token = none;
  receipt = some receipt;
  re_reserved = false;
}

complete_ok-find :
    (key receipt token now : Text) (l : List Entry)
    → (complete_recovered key receipt token now l).0 ≡ ok tt
    → (e : Entry) × (find key_of key ((complete_recovered key receipt token now l).1)
        ≡ some (completed_entry key e receipt now))
complete_ok-find key receipt token now l h = elim (Option-cases (find key_of key l)) [
  | inl e ↦ absurd (ground (arith, e))
  | inr (a, e) ↦
      (a, ground (arith, e, find-assign key_of key (completed_entry key a receipt now) l))
]

complete-find :
    (key receipt token now : Text) (approvals : List Approval) (l : List Entry)
    → (complete key receipt token now approvals l).0 ≡ ok tt
    → (e : Entry) × (find key_of key ((complete key receipt token now approvals l).1)
        ≡ some (completed_entry key e receipt now))
unfolding complete
complete-find key receipt token now approvals l h = elim (Bool-cases (is_empty token)) [
  | inl t ↦ absurd (ground (arith, t))
  | inr t ↦ rw (t) (complete_ok-find key receipt token now _ (rw (t) at h))
]

-- A completion is given to every later reservation of the same operation, with its receipt, and never
-- runs again, whatever calls come between.
pub complete-reserve :
    (receipt token now : Text) (approvals approvals' : List Approval) (l : List Entry)
    (cs : List Call) (q : Reserve)
    → (complete q.key receipt token now approvals l).0 ≡ ok tt
    → (reserve q approvals' (run cs ((complete q.key receipt token now approvals l).1))).0
      ≡ ok (completed_with receipt)
unfolding reserve reserve_found reserve_status
complete-reserve receipt token now approvals approvals' l cs q h =
    let (e, f) = complete-find q.key receipt token now approvals l h in
    let v = completed_entry q.key e receipt now in
    rw
      (reserve_found, find-recovered q.now approvals' q.key _ v (run-done q.key v cs _ refl f) refl)
      refl
