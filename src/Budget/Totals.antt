-- ===== src/Budget/Totals.antt =====
-- What a day's ledger has spent and reserved, call by call.
use personal_ai_model.Prelude.{
  ℕ, ◌+◌, ◌≤◌, ◌≡◌, Option, some, List, [], ◌∷◌, ◌++◌, arith, inl, inr, Option-cases,
}
use personal_ai_model.Prelude.Text.{Text}
use personal_ai_model.Prelude.Result.{ok, >>=-ok}
use personal_ai_model.Prelude.Keyed.{find, assign, replace, remove}
use personal_ai_model.Budget.{
  Floats, PricedRoute, Limits, Held, Budget, BudgetReservation, Settlement, held_id, held_tokens,
  read_ledger, reserve_in, reserve_budget, estimate, settle_in, settle_budget, charged_tokens,
  reserved_entry,
}

module _ {C : Type 0} where
  abbrev pub total : Budget C → ℕ
  total l = l.spent_tokens + held_tokens l.reservations

  held_tokens-append :
      (hs : List (Held C)) (h : Held C) → held_tokens (hs ++ h ∷ []) ≡ held_tokens hs + h.tokens
  held_tokens-append [] h = omega arith
  held_tokens-append (x ∷ hs) h = omega (arith, held_tokens-append hs h)

  held_tokens-replace :
      (k : Text) (hs : List (Held C)) (h : Held C)
      → held_tokens (replace held_id k h hs) ≤ held_tokens hs + h.tokens
  unfolding replace
  held_tokens-replace k [] h = omega arith
  held_tokens-replace k (x ∷ hs) h = ground (arith, held_tokens-replace k hs h)

  held_tokens-assign :
      (hs : List (Held C)) (h : Held C)
      → held_tokens (assign held_id h hs) ≤ held_tokens hs + h.tokens
  unfolding assign
  held_tokens-assign hs h = elim (Option-cases (find held_id h.id hs)) [
    | inl e ↦ rw (assign, e) (omega (arith, held_tokens-append hs h))
    | inr (x, e) ↦ rw (assign, e) (held_tokens-replace h.id hs h)
  ]

  held_tokens-remove :
      (k : Text) (hs : List (Held C)) (h : Held C)
      → find held_id k hs ≡ some h
      → held_tokens (remove held_id k hs) + h.tokens ≡ held_tokens hs
  unfolding remove find
  held_tokens-remove k [] h e = cc
  held_tokens-remove k (x ∷ hs) h e = ground (arith, held_tokens-remove k hs h)

module _ {C : Type 0} (floats : Floats C) where
  pub total-read_ledger :
      (l : Budget C) (day : Text) → total (read_ledger floats (some l) day) ≤ total l
  unfolding read_ledger
  total-read_ledger l day = ground arith

  -- A reservation that is granted keeps the day's total within the budget, and adds no more than its
  -- tokens to it.
  pub reserve_budget-total :
      (policy : Limits C) (route : PricedRoute C) (prompt system_prompt id day : Text)
      (file : Option (Budget C)) (r : BudgetReservation C) (l : Budget C)
      → reserve_budget floats policy route prompt system_prompt id day file ≡ ok (r, l)
      → (total l ≤ policy.daily_token_budget)
        × (total l ≤ total (read_ledger floats file day) + r.tokens)
  unfolding reserve_budget reserve_in
  reserve_budget-total policy route prompt system_prompt id day file r l h =
      let (e, f, g) = >>=-ok (estimate floats policy route prompt system_prompt) _ h in
      ground (
        arith,
        g,
        held_tokens-assign (read_ledger floats file day).reservations
            (reserved_entry floats id route e.0 e.1),
      )

  -- A settlement takes its reservation out of the total and puts what it charges in.
  pub settle_budget-total :
      (s : Settlement C) (day : Text) (file : Option (Budget C)) (l : Budget C)
      → settle_budget floats s day file ≡ ok l
      → (h : Held C) × (find held_id s.reservation.id (read_ledger floats file day).reservations
          ≡ some h)
        × (total l + h.tokens ≡ total (read_ledger floats file day) + charged_tokens floats s)
  unfolding settle_budget settle_in
  settle_budget-total s day file l e =
      elim (Option-cases
        (find held_id s.reservation.id (read_ledger floats file day).reservations)) [
          | inl f ↦ absurd (ground (arith, f))
          | inr (h, f) ↦ (
            h,
            f,
            ground (
              arith,
              f,
              held_tokens-remove s.reservation.id (read_ledger floats file day).reservations h f,
            ),
          )
        ]
