-- ===== src/Ledger/Phases.antt =====
-- The contract of the ledger for one operation: whether it may be run, is being run by an owner, has an
-- unknown outcome, is being resolved, or is done.
use personal_ai_model.Prelude.{
  ◌≡◌, ◌⊎◌, refl, true, false, Option, none, some, List, [], ◌∷◌, arith, inl, inr, if◌then◌else◌,
  Bool-cases, not, ◌&&◌,
}
use personal_ai_model.Prelude.Text.{◌==?◌, truthy, Text, codes, is_empty, text_or, text_discrete}
use personal_ai_model.Prelude.Keyed.{find}
use personal_ai_model.Policy.{Approval, id_of}
use personal_ai_model.Ledger.{
  OpStatus, Resolution, Entry, key_of, reserved, unknown_outcome, preflight_aborted,
  reconciling_started, reconciled_completed, reconciled_cancelled, reconciled_failed, failed,
  cancelled,
}
use personal_ai_model.Ledger.Reserve.{
  Reserve, is_running, recover_entry, is_started, approval_consumed, resolution_or_cancelled,
  reconciled_as,
}
use personal_ai_model.Ledger.Settle.{aborted_entry, completed_entry, unknown_entry}
use personal_ai_model.Ledger.Reconcile.{Reconcile, Checked, is_unknown}
use personal_ai_model.Ledger.Steps.{
  Call, reserve_op, abort_op, complete_op, unknown_op, start_op, finish_op, step, recovery, effect,
  subject, held_by, token_text, reserve_over, move_if,
}
use personal_ai_model.Ledger.View.{find-step, act-same, act-other}

pub data Phase : Type 0 where
  free uncertain done : Phase
  running : Option Text → Phase
  resolving : Resolution → Text → Phase

abbrev pub phase_as : OpStatus → Entry → Phase
phase_as reserved e = running e.owner_token
phase_as unknown_outcome e = uncertain
phase_as reconciling_started e =
    resolving (resolution_or_cancelled e.reconciling_resolution)
      (text_or e.reconciling_approval_id (codes ""))
phase_as OpStatus.completed e = done
phase_as reconciled_completed e = done
phase_as _ e = free

abbrev pub phase : Option Entry → Phase
phase none = free
phase (some e) = phase_as e.status e

-- Where a resolution ends.
abbrev pub resolved : Resolution → Phase
resolved Resolution.completed = done
resolved failed = free
resolved cancelled = free

-- The token is the owner's, or the reservation has none.
abbrev pub Owns : Text → Option Text → Type 0
Owns token owner = (truthy owner && not (owner ==? some token)) ≡ false

-- The queue by which a call recovers the ledger, if it does.
abbrev pub reads : Call → Option (List Approval)
reads (reserve_op q approvals) = some approvals
reads (abort_op key reason token now) = none
reads (complete_op key receipt token now approvals) =
    if is_empty token then none else some approvals
reads (unknown_op key reason token now approvals) = some approvals
reads (start_op q c now approvals) = some approvals
reads (finish_op q c consumed default_receipt now) = none

-- A resolution that was interrupted ends as it was meant to where its approval was consumed, and is
-- given up where it was not.
pub data Recovers (c : Call) : Phase → Phase → Type 0 where
  keeps : (p : Phase) → Recovers c p p
  replays :
      (r : Resolution) (id : Text) (approvals : List Approval)
      → reads c ≡ some approvals
      → approval_consumed (find id_of id approvals) ≡ true
      → Recovers c (resolving r id) (resolved r)
  rolls_back :
      (r : Resolution) (id : Text) (approvals : List Approval)
      → reads c ≡ some approvals
      → approval_consumed (find id_of id approvals) ≡ false
      → Recovers c (resolving r id) uncertain

-- The moves that each call may make.
pub data Takes : Call → Phase → Phase → Type 0 where
  stays : (c : Call) (p : Phase) → Takes c p p
  grants :
      (q : Reserve) (approvals : List Approval)
      → Takes (reserve_op q approvals) free (running (some q.fresh_token))
  expires :
      (q : Reserve) (approvals : List Approval) (owner : Option Text)
      → Takes (reserve_op q approvals) (running owner) uncertain
  aborts :
      (key reason token now : Text) (owner : Option Text)
      → Owns token owner
      → Takes (abort_op key reason token now) (running owner) free
  completes :
      (key receipt token now : Text) (approvals : List Approval) (owner : Option Text)
      → Owns token owner
      → Takes (complete_op key receipt token now approvals) (running owner) done
  gives_up :
      (key reason : Text) (token : Option Text) (now : Text) (approvals : List Approval)
      (owner : Option Text)
      → Owns (token_text token) owner
      → Takes (unknown_op key reason token now approvals) (running owner) uncertain
  starts :
      (q : Reconcile) (c : Checked) (now : Text) (approvals : List Approval)
      → Takes
          (start_op q c now approvals)
          uncertain
          (resolving c.resolution (text_or (some c.approval_id) (codes "")))
  finishes :
      (q : Reconcile) (c : Checked) (consumed : Approval) (default_receipt now : Text)
      (r : Resolution) (id : Text)
      → Takes (finish_op q c consumed default_receipt now) (resolving r id) (resolved c.resolution)

pub phase-reconciled : (r : Resolution) (e : Entry) → phase_as (reconciled_as r) e ≡ resolved r
phase-reconciled Resolution.completed e = refl
phase-reconciled failed e = refl
phase-reconciled cancelled e = refl

is_started-cases : (s : OpStatus) → (s ≡ reconciling_started) ⊎ (is_started s ≡ false)
is_started-cases s = ground arith

recover-Recovers :
    (c : Call) (now : Text) (approvals : List Approval) (e : Entry)
    → reads c ≡ some approvals
    → Recovers c (phase (some e)) (phase (some (recover_entry now approvals e)))
unfolding recover_entry
recover-Recovers c now approvals e h = elim (is_started-cases e.status) [
  | inr n ↦ rw (recover_entry, n) (keeps _)
  | inl s ↦
      elim (Bool-cases
        (approval_consumed (find id_of (text_or e.reconciling_approval_id (codes "")) approvals))) [
          | inl b ↦
              rw
                (
                  recover_entry,
                  s,
                  b,
                  phase-reconciled (resolution_or_cancelled e.reconciling_resolution) _,
                )
                (replays _ _ approvals h b)
          | inr b ↦ rw (recover_entry, s, b) (rolls_back _ _ approvals h b)
        ]
]

recovery-Recovers : (c : Call) (o : Option Entry) → Recovers c (phase o) (phase (recovery c o))
recovery-Recovers (reserve_op q approvals) none = keeps _
recovery-Recovers (reserve_op q approvals) (some e) = recover-Recovers _ q.now approvals e refl
recovery-Recovers (abort_op key reason token now) o = keeps _
recovery-Recovers (complete_op key receipt [] now approvals) o = keeps _
recovery-Recovers (complete_op key receipt (t ∷ token) now approvals) none = keeps _
recovery-Recovers (complete_op key receipt (t ∷ token) now approvals) (some e) =
    recover-Recovers _ now approvals e refl
recovery-Recovers (unknown_op key reason token now approvals) none = keeps _
recovery-Recovers (unknown_op key reason token now approvals) (some e) =
    recover-Recovers _ now approvals e refl
recovery-Recovers (start_op q c now approvals) none = keeps _
recovery-Recovers (start_op q c now approvals) (some e) = recover-Recovers _ now approvals e refl
recovery-Recovers (finish_op q c consumed default_receipt now) o = keeps _

reserve-Takes :
    (q : Reserve) (approvals : List Approval) (s : OpStatus) (e : Entry)
    → e.status ≡ s
    → Takes (reserve_op q approvals) (phase_as s e) (phase (some (reserve_over s q e)))
reserve-Takes q approvals preflight_aborted e h = grants q approvals
reserve-Takes q approvals reconciled_cancelled e h = grants q approvals
reserve-Takes q approvals reconciled_failed e h = grants q approvals
reserve-Takes q approvals reserved e h = elim (Bool-cases (is_running q e)) [
  | inl r ↦ rw (r, h) (stays _ _)
  | inr r ↦ rw (r) (expires q approvals e.owner_token)
]
reserve-Takes q approvals unknown_outcome e h = rw (h) (stays _ _)
reserve-Takes q approvals reconciling_started e h = rw (h) (stays _ _)
reserve-Takes q approvals reconciled_completed e h = rw (h) (stays _ _)
reserve-Takes q approvals OpStatus.completed e h = rw (h) (stays _ _)

-- The holder of the token makes the move, or nothing happens.
held-Takes :
    (c : Call) (token : Text) (f : Entry → Entry) (q : Phase) (e : Entry)
    → ((owner : Option Text) → Owns token owner → Takes c (running owner) q)
    → phase (some (f e)) ≡ q
    → Takes c (phase (some e)) (phase (move_if (held_by token) f (some e)))
held-Takes c token f q e moves h = elim (Bool-cases (held_by token e)) [
  | inr n ↦ rw (n) (stays _ _)
  | inl y ↦
      let running_now : e.status ≡ reserved = ground arith in
      rw (y, h, running_now) (moves e.owner_token (ground arith))
]

effect-Takes : (c : Call) (o : Option Entry) → Takes c (phase o) (phase (effect c o))
effect-Takes (reserve_op q approvals) none = grants q approvals
effect-Takes (reserve_op q approvals) (some e) = reserve-Takes q approvals e.status e refl
effect-Takes (abort_op key reason token now) none = stays _ _
effect-Takes (abort_op key reason token now) (some e) =
    held-Takes _ token (λ x. aborted_entry key x reason now) free e (aborts key reason token now)
      refl
effect-Takes (complete_op key receipt token now approvals) none = stays _ _
effect-Takes (complete_op key receipt token now approvals) (some e) =
    held-Takes _ token (λ x. completed_entry key x receipt now) done e
      (completes key receipt token now approvals) refl
effect-Takes (unknown_op key reason token now approvals) none = stays _ _
effect-Takes (unknown_op key reason token now approvals) (some e) =
    held-Takes _ (token_text token) (λ x. unknown_entry key x reason now) uncertain e
      (gives_up key reason token now approvals) refl
effect-Takes (start_op q c now approvals) none = stays _ _
effect-Takes (start_op q c now approvals) (some e) = elim (Bool-cases (is_unknown e.status)) [
  | inr n ↦ rw (n) (stays _ _)
  | inl y ↦ let u : e.status ≡ unknown_outcome = ground arith in rw (u) (starts q c now approvals)
]
effect-Takes (finish_op q c consumed default_receipt now) none = stays _ _
effect-Takes (finish_op q c consumed default_receipt now) (some e) =
    elim (is_started-cases e.status) [
      | inr n ↦ rw (n) (stays _ _)
      | inl s ↦
          rw (s, phase-reconciled c.resolution _) (finishes q c consumed default_receipt now _ _)
    ]

-- Each call moves the operation under each key as its contract allows: first the recovery, where
-- the call runs one, then at most one move of the call's own, and that only under its own key.
pub step-Takes :
    (j : Text) (c : Call) (l : List Entry)
    → (p : Phase) × Recovers c (phase (find key_of j l)) p
      × ((p ≡ phase (find key_of j (step c l)))
          ⊎ ((subject c ≡ j) × Takes c p (phase (find key_of j (step c l)))))
step-Takes j c l = rw (find-step j c l) (elim (text_discrete (subject c) j) [
  | yes h ↦
      rw (act-same j c (find key_of j l) h)
        (phase (recovery c (find key_of j l)), recovery-Recovers c _, inr (h, effect-Takes c _))
  | no h ↦
      rw (act-other j c (find key_of j l) h)
        (phase (recovery c (find key_of j l)), recovery-Recovers c _, inl refl)
])
