-- ===== src/Ledger/Resolved.antt =====
-- What a resolved entry is, written out, and that the last phase leaves one.
use personal_ai_model.Prelude.{◌≡◌, refl, none, some, List, Option}
use personal_ai_model.Prelude.Text.{Text, ==-refl}
use personal_ai_model.Prelude.Keyed.{find}
use personal_ai_model.Policy.{Approval}
use personal_ai_model.Ledger.{
  Resolution, Entry, key_of, OpStatus, failed, cancelled, reconciled_completed, reconciling_started,
  reconciled_failed, reconciled_cancelled,
}
use personal_ai_model.Ledger.Reserve.{reconciled_as, completion_time}
use personal_ai_model.Ledger.Reconcile.{Reconcile, Checked, finish_reconciling, finished_entry}
use personal_ai_model.Ledger.View.{find-finish}

-- The status in which each resolution ends, written out.
abbrev pub EndsAs : Resolution → OpStatus → Type 0
EndsAs Resolution.completed s = s ≡ reconciled_completed
EndsAs failed s = s ≡ reconciled_failed
EndsAs cancelled s = s ≡ reconciled_cancelled

pub reconciled_as-EndsAs : (r : Resolution) → EndsAs r (reconciled_as r)
reconciled_as-EndsAs Resolution.completed = refl
reconciled_as-EndsAs failed = refl
reconciled_as-EndsAs cancelled = refl

-- The time of completion that each resolution leaves: now where it is completed, the old one otherwise.
abbrev pub CompletedAt : Resolution → Text → Option Text → Option Text → Type 0
CompletedAt Resolution.completed now old t = t ≡ some now
CompletedAt failed now old t = t ≡ old
CompletedAt cancelled now old t = t ≡ old

pub completion_time-CompletedAt :
    (r : Resolution) (now : Text) (old : Option Text)
    → CompletedAt r now old (completion_time r now old)
completion_time-CompletedAt Resolution.completed now old = refl
completion_time-CompletedAt failed now old = refl
completion_time-CompletedAt cancelled now old = refl

-- The entry was resolved at the time: it has the status of the resolution and its times, and it keeps
-- nothing of what was written ahead of the consumption.
abbrev pub IsResolved : Resolution → Text → Entry → Entry → Type 0
IsResolved r now old e =
    EndsAs r e.status
    × CompletedAt r now old.completed_at e.completed_at
    × (e.reconciled_at ≡ some now)
    × (e.reconciling_resolution ≡ none)
    × (e.reconciling_approval_id ≡ none)
    × (e.reconciling_evidence ≡ none)
    × (e.payload_hash ≡ old.payload_hash)

-- Where the last phase finds an entry whose reconciliation has started, it resolves it.
pub finish-IsResolved :
    (q : Reconcile) (c : Checked) (consumed : Approval) (default_receipt now : Text) (e : Entry)
    (l : List Entry)
    → find key_of q.key l ≡ some e
    → e.status ≡ reconciling_started
    → (b : Entry) × (find key_of q.key ((finish_reconciling q c consumed default_receipt now l).1)
        ≡ some b)
      × IsResolved c.resolution now e b
finish-IsResolved q c consumed default_receipt now e l f s = (
  finished_entry q c consumed default_receipt now e,
  rw (find-finish q.key q c consumed default_receipt now l, f, s, ==-refl q.key) refl,
  (
    reconciled_as-EndsAs c.resolution,
    completion_time-CompletedAt c.resolution now e.completed_at,
    refl,
    refl,
    refl,
    refl,
    refl,
  ),
)
