-- ===== src/Policy/Cases.antt =====
-- One rule for each operation: a property of the queue afterwards holds if it holds of the queue as
-- it was and of each queue that the operation can write.
use personal_ai_model.Prelude.{
  ◌≡◌, inl, inr, true, false, ◌||◌, Option, none, some, List, arith, Option-cases,
}
use personal_ai_model.Prelude.Text.{Text}
use personal_ai_model.Prelude.Result.{ok, err}
use personal_ai_model.Prelude.Keyed.{find, replace}
use personal_ai_model.Policy.{
  Approval, pending, approved, reserved, Scope, Written, id_of, validate_approval_scope,
  approve_action_request, reserve_action_approval, consume_action_approval,
  mark_approval_unknown_outcome, is_approved, is_reserved, validate_unknown, as_approved,
  as_reserved, as_consumed, as_unknown,
}

-- A call that raises leaves the queue as it was.
abbrev pub after : List Approval → Written → List Approval
after entries (ok (r, written)) = written
after entries (err e) = entries

module _ {ℓ} (P : List Approval → Type ℓ) (entries : List Approval) (kept : P entries) where
  pub approve_cases :
      (request_id now : Text)
      → ((r : Approval)
          → find id_of request_id entries ≡ some r
          → r.status ≡ pending
          → P (replace id_of r.id (as_approved now r) entries))
      → P (after entries (approve_action_request request_id now entries))
  unfolding approve_action_request
  approve_cases request_id now moved = elim (Option-cases (find id_of request_id entries)) [
    | inl e ↦ rw (e, approve_action_request) kept
    | inr (r, e) ↦ rw (e, approve_action_request) (ground (arith, moved r e))
  ]

  module _ (sanitize : Text → Text) where
    pub reserve_cases :
        (request_id : Text) (s : Scope) (token now : Text)
        → ((r : Approval)
            → find id_of request_id entries ≡ some r
            → r.status ≡ approved
            → validate_approval_scope sanitize r now
                (record s { reservation_token = none; require_token = false })
              ≡ ok tt
            → P (replace id_of r.id (as_reserved token now r) entries))
        → P (after entries (reserve_action_approval sanitize request_id s token now entries))
    unfolding reserve_action_approval
    reserve_cases request_id s token now moved =
        elim (Option-cases (find id_of request_id entries)) [
          | inl e ↦ rw (e, reserve_action_approval) kept
          | inr (r, e) ↦ rw (e, reserve_action_approval) (ground (arith, moved r e))
        ]

    pub consume_cases :
        (request_id : Text) (s : Scope) (evidence : Option Text) (now : Text)
        → ((r : Approval)
            → find id_of request_id entries ≡ some r
            → (is_approved r.status || is_reserved r.status) ≡ true
            → validate_approval_scope sanitize r now
                (record s { require_token = is_reserved r.status })
              ≡ ok tt
            → P (replace id_of r.id (as_consumed evidence now r) entries))
        → P (after entries (consume_action_approval sanitize request_id s evidence now entries))
    unfolding consume_action_approval
    consume_cases request_id s evidence now moved =
        elim (Option-cases (find id_of request_id entries)) [
          | inl e ↦ rw (e, consume_action_approval) kept
          | inr (r, e) ↦ rw (e, consume_action_approval) (ground (arith, moved r e))
        ]

    pub unknown_cases :
        (request_id reason : Text) (action target token : Option Text) (now : Text)
        → ((r : Approval)
            → find id_of request_id entries ≡ some r
            → r.status ≡ reserved
            → validate_unknown sanitize r action target token now ≡ ok tt
            → P (replace id_of r.id (as_unknown reason now r) entries))
        → P (
            after entries (
              mark_approval_unknown_outcome sanitize request_id reason action target token now
                entries))
    unfolding mark_approval_unknown_outcome
    unknown_cases request_id reason action target token now moved =
        elim (Option-cases (find id_of request_id entries)) [
          | inl e ↦ rw (e, mark_approval_unknown_outcome) kept
          | inr (r, e) ↦ rw (e, mark_approval_unknown_outcome) (ground (arith, moved r e))
        ]
