-- ===== src/Budget/Tests.antt =====
-- A reservation of a small call, and its settlement. The floats are counted in whole units.
use personal_ai_model.Prelude.{ℕ, ◌+◌, ◌≤◌, ◌≡◌, refl, none, some, List, [], ◌∷◌, false, ltb, arith}
use personal_ai_model.Prelude.Text.{codes, text_discrete}
use personal_ai_model.Prelude.Result.{ok}
use personal_ai_model.Prelude.Keyed.{find, assign, replace, remove}
use personal_ai_model.Budget.{
  Floats, PricedRoute, Limits, BudgetReservation, read_ledger, reserve_budget, settle_budget,
  estimate, estimate_tokens, utf8_length, estimate_route_cost, reserve_in, settle_in,
  reserved_entry,
}
use personal_ai_model.Budget.Spending.{
  Call, reserve_call, settle_call, run, overrun, step, total_of, run-total,
}

abbrev whole : Floats ℕ
whole = record {
  zero_cost = 0;
  plus = λ a b. a + b;
  above = λ a b. ltb b a;
  at_least_zero = λ a. a;
}

abbrev limits : Limits ℕ
limits = record { max_completion_tokens = 10; daily_token_budget = 50; daily_cost_budget_usd = 0 }

abbrev local : PricedRoute ℕ
local = record {
  provider = codes "local-ollama";
  model = codes "m";
  cost_tier = codes "local";
  scale = some (λ n. n);
  price = none;
}

abbrev kept : BudgetReservation ℕ
kept = record { id = codes "b1"; date = codes "day"; tokens = 46; cost_usd = 0 }

abbrev sent : List (Call ℕ)
sent =
    reserve_call limits local (codes "hi") (codes "be") (codes "b1") (codes "day")
    ∷ reserve_call limits local (codes "hi") (codes "be") (codes "b2") (codes "day")
    ∷ settle_call
        (record {
          reservation = kept;
          actual_tokens = some 60;
          actual_cost_usd = none;
          charge_reservation = false;
        })
        (codes "day")
    ∷ []

overran : overrun whole sent none ≡ 14
unfolding overrun step reserve_budget settle_budget reserve_in settle_in estimate estimate_tokens
    utf8_length estimate_route_cost read_ledger find assign replace remove text_discrete
overran = refl

granted_now :
    reserve_budget whole limits local (codes "hi") (codes "be") (codes "b1") (codes "day") none
    ≡ ok (
      kept,
      record {
        date = codes "day";
        spent_tokens = 0;
        spent_cost_usd = 0;
        reservations = reserved_entry whole (codes "b1") local 46 0 ∷ [];
      },
    )
unfolding reserve_budget reserve_in estimate estimate_tokens utf8_length estimate_route_cost
    read_ledger find assign text_discrete
granted_now = refl

run-total_example : total_of (run whole sent none) ≤ 50 + overrun whole sent none
run-total_example =
    run-total whole 50 sent none (omega arith, (omega arith, (tt, tt))) (omega arith)
