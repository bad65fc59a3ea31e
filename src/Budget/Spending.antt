-- ===== src/Budget/Spending.antt =====
-- The ledger under any calls, on any days: the total stays within the budget, but for what settlements
-- charge beyond their reservations.
use personal_ai_model.Prelude.{
  ℕ, ◌+◌, ◌-◌, ◌≤◌, Option, none, some, List, [], ◌∷◌, arith, inl, inr, All,
}
use personal_ai_model.Prelude.Text.{Text}
use personal_ai_model.Prelude.Result.{Result, ok, err, Result-cases}
use personal_ai_model.Prelude.Keyed.{find}
use personal_ai_model.Budget.{
  Floats, PricedRoute, Limits, Held, Budget, BudgetReservation, BudgetError, Settlement, held_id,
  read_ledger, reserve_budget, settle_budget, charged_tokens,
}
use personal_ai_model.Budget.Totals.{
  total, total-read_ledger, reserve_budget-total, settle_budget-total,
}

pub data Call (C : Type 0) : Type 0 where
  reserve_call : Limits C → PricedRoute C → (prompt system_prompt id day : Text) → Call C
  settle_call : Settlement C → (day : Text) → Call C

module _ {C : Type 0} where
  abbrev pub after_reserve :
      Option (Budget C) → Result BudgetError (BudgetReservation C × Budget C) → Option (Budget C)
  after_reserve file (ok w) = some w.1
  after_reserve file (err e) = file

  abbrev pub after_settle : Option (Budget C) → Result BudgetError (Budget C) → Option (Budget C)
  after_settle file (ok l) = some l
  after_settle file (err e) = file

  abbrev pub total_of : Option (Budget C) → ℕ
  total_of none = 0
  total_of (some l) = total l

  -- The call reserves within the budget of so many tokens.
  abbrev pub Within : ℕ → Call C → Type 0
  Within limit (reserve_call policy route prompt system_prompt id day) =
      policy.daily_token_budget ≤ limit
  Within limit (settle_call s day) = Unit

module _ {C : Type 0} (floats : Floats C) where
  unfoldable pub step : Call C → Option (Budget C) → Option (Budget C)
  step (reserve_call policy route prompt system_prompt id day) file =
      after_reserve file (reserve_budget floats policy route prompt system_prompt id day file)
  step (settle_call s day) file = after_settle file (settle_budget floats s day file)

  unfoldable pub run : List (Call C) → Option (Budget C) → Option (Budget C)
  unfolding step
  run [] file = file
  run (c ∷ cs) file = run cs (step c file)

  -- What a settlement charges beyond the tokens of its reservation.
  abbrev pub excess : Settlement C → Option (Held C) → ℕ
  excess s none = 0
  excess s (some h) = charged_tokens floats s - h.tokens

  abbrev pub overrun_of : Call C → Option (Budget C) → ℕ
  overrun_of (reserve_call policy route prompt system_prompt id day) file = 0
  overrun_of (settle_call s day) file =
      excess s (find held_id s.reservation.id (read_ledger floats file day).reservations)

  unfoldable pub overrun : List (Call C) → Option (Budget C) → ℕ
  unfolding step
  overrun [] file = 0
  overrun (c ∷ cs) file = overrun_of c file + overrun cs (step c file)

  total_of-read_ledger :
      (file : Option (Budget C)) (day : Text) → total (read_ledger floats file day) ≤ total_of file
  unfolding read_ledger
  total_of-read_ledger none day = omega arith
  total_of-read_ledger (some l) day = total-read_ledger floats l day

  step-total :
      (limit : ℕ) (c : Call C) (file : Option (Budget C)) (slack : ℕ)
      → Within limit c
      → total_of file ≤ limit + slack
      → total_of (step c file) ≤ limit + slack + overrun_of c file
  unfolding step
  step-total limit (reserve_call policy route prompt system_prompt id day) file slack w h =
      elim (Result-cases (reserve_budget floats policy route prompt system_prompt id day file)) [
        | inl (x, e) ↦ rw (e) (omega arith)
        | inr (r, e) ↦ rw (e) (
            omega (
              arith,
              (reserve_budget-total floats policy route prompt system_prompt id day file r.0 r.1
                  e).0,
            ))
      ]
  step-total limit (settle_call s day) file slack w h =
      elim (Result-cases (settle_budget floats s day file)) [
        | inl (x, e) ↦ rw (e) (omega arith)
        | inr (l, e) ↦
            let (held, f, g) = settle_budget-total floats s day file l e in
            rw (e, f) (omega (arith, g, total_of-read_ledger file day))
      ]

  run_slack :
      (limit : ℕ) (cs : List (Call C)) (file : Option (Budget C)) (slack : ℕ)
      → All (Within limit) cs
      → total_of file ≤ limit + slack
      → total_of (run cs file) ≤ limit + slack + overrun cs file
  unfolding run overrun
  run_slack limit [] file slack w h = omega arith
  run_slack limit (c ∷ cs) file slack (w, ws) h = omega (
    arith,
    run_slack limit cs (step c file) (slack + overrun_of c file) ws
        (omega (arith, step-total limit c file slack w h)),
  )

  -- Whatever is reserved and settled, on whatever days, the tokens spent and reserved stay within the
  -- daily budget, but for what settlements charged beyond their own reservations.
  pub run-total :
      (limit : ℕ) (cs : List (Call C)) (file : Option (Budget C))
      → All (Within limit) cs
      → total_of file ≤ limit
      → total_of (run cs file) ≤ limit + overrun cs file
  run-total limit cs file w h = omega (arith, run_slack limit cs file 0 w (omega arith))
