-- ===== src/Budget.antt =====
-- src/guardian_agent/budget.py: the daily budget of tokens and cost. The ledger file is an optional value,
-- each operation under its lock a function of it and of the day. Costs are floats: their type and the
-- operations that the code uses are a parameter. A negative token number counts as 0, as the code refuses
-- a limit below 1 and charges no less than 0.
pub mod Totals
pub mod Spending
mod Tests
use personal_ai_model.Prelude.{
  ℕ, ◌+◌, ◌-◌, max, ◌≡◌, Bool, true, false, not, ◌&&◌, ◌||◌, Option, none, some, List, [], ◌∷◌,
  if◌then◌else◌, ltb, length,
}
use personal_ai_model.Prelude.Text.{Text, codes, ◌==◌}
use personal_ai_model.Prelude.Result.{Result, ok, err, ◌>>=◌, ◌>>◌, raise_if}
use personal_ai_model.Prelude.Keyed.{find, assign, remove}

-- Python's floats as the budget uses them.
pub record Floats (C : Type 0) : Type 0 where
  pub zero_cost : C
  pub plus : C → C → C
  pub above : C → C → Bool
  pub at_least_zero : C → C

-- A route: `scale` is its prompt_reservation_multiplier with the rounding, `none` where the code refuses
-- it; `price` is the cost of a paid call, `none` without verified pricing.
pub record PricedRoute (C : Type 0) : Type 0 where
  pub provider : Text
  pub model : Text
  pub cost_tier : Text
  pub scale : Option (ℕ → ℕ)
  pub price : Option (ℕ → ℕ → C)

pub record Limits (C : Type 0) : Type 0 where
  pub max_completion_tokens : ℕ
  pub daily_token_budget : ℕ
  pub daily_cost_budget_usd : C

pub record Held (C : Type 0) : Type 0 where
  pub id : Text
  pub tokens : ℕ
  pub cost_usd : C
  pub provider : Text
  pub model : Text

pub record Budget (C : Type 0) : Type 0 where
  pub date : Text
  pub spent_tokens : ℕ
  pub spent_cost_usd : C
  pub reservations : List (Held C)

-- What the caller keeps of its reservation.
pub record BudgetReservation (C : Type 0) : Type 0 where
  pub id : Text
  pub date : Text
  pub tokens : ℕ
  pub cost_usd : C

pub data BudgetError : Type 0 where
  bad_multiplier bad_completion unpriced bad_limits tokens_exceeded cost_exceeded
        unknown_reservation :
      BudgetError

-- The bytes of a code point in UTF-8.
abbrev pub utf8_size : ℕ → ℕ
utf8_size c = if ltb c 128 then 1 else if ltb c 2048 then 2 else if ltb c 65536 then 3 else 4

unfoldable pub utf8_length : Text → ℕ
utf8_length [] = 0
utf8_length (c ∷ s) = utf8_size c + utf8_length s

unfoldable pub estimate_tokens : Text → ℕ
estimate_tokens text = max 1 (utf8_length text)

-- "local", "free", "free-limited", "subscription"
abbrev pub is_free_tier : Text → Bool
is_free_tier tier =
    tier == codes "local"
    || tier == codes "free"
    || tier == codes "free-limited"
    || tier == codes "subscription"

abbrev pub scale_or : Option (ℕ → ℕ) → Result BudgetError (ℕ → ℕ)
scale_or none = err bad_multiplier
scale_or (some f) = ok f

abbrev pub number_or_zero : Option ℕ → ℕ
number_or_zero none = 0
number_or_zero (some n) = n

-- The arguments of a settlement.
pub record Settlement (C : Type 0) : Type 0 where
  pub reservation : BudgetReservation C
  pub actual_tokens : Option ℕ
  pub actual_cost_usd : Option C
  pub charge_reservation : Bool

module _ {C : Type 0} where
  abbrev pub held_id : Held C → Text
  held_id h = h.id

  abbrev pub held_tokens : List (Held C) → ℕ
  held_tokens [] = 0
  held_tokens (h ∷ hs) = h.tokens + held_tokens hs

  abbrev pub priced : ℕ → ℕ → Option (ℕ → ℕ → C) → Result BudgetError C
  priced prompt_tokens completion_tokens none = err unpriced
  priced prompt_tokens completion_tokens (some price) = ok (price prompt_tokens completion_tokens)

module _ {C : Type 0} (floats : Floats C) where
  abbrev pub empty_ledger : Text → Budget C
  empty_ledger day = record {
    date = day;
    spent_tokens = 0;
    spent_cost_usd = floats.zero_cost;
    reservations = [];
  }

  -- A ledger of another day is not carried over.
  unfoldable pub read_ledger : Option (Budget C) → Text → Budget C
  read_ledger none day = empty_ledger day
  read_ledger (some l) day = if l.date == day then l else empty_ledger day

  abbrev pub held_cost : List (Held C) → C → C
  held_cost [] sum = sum
  held_cost (h ∷ hs) sum = held_cost hs (floats.plus sum h.cost_usd)

  unfoldable pub estimate_route_cost : PricedRoute C → ℕ → ℕ → Result BudgetError C
  estimate_route_cost route prompt_tokens completion_tokens =
      if is_free_tier route.cost_tier
      then ok floats.zero_cost
      else priced prompt_tokens completion_tokens route.price

  -- The bound on the tokens of the call, and its cost.
  unfoldable pub estimate : Limits C → PricedRoute C → Text → Text → Result BudgetError (ℕ × C)
  estimate policy route prompt system_prompt = do
    scale ← scale_or route.scale
    let prompt_tokens = scale (estimate_tokens prompt + estimate_tokens system_prompt + 32)
    let completion_tokens = policy.max_completion_tokens
    raise_if (ltb completion_tokens 1) bad_completion
    cost ← estimate_route_cost route prompt_tokens completion_tokens
    raise_if
        (ltb policy.daily_token_budget 1
          || floats.above floats.zero_cost policy.daily_cost_budget_usd)
        bad_limits
    ok (prompt_tokens + completion_tokens, cost)

  abbrev pub reserved_entry : Text → PricedRoute C → ℕ → C → Held C
  reserved_entry id route tokens cost = record {
    id = id;
    tokens = tokens;
    cost_usd = cost;
    provider = route.provider;
    model = route.model;
  }

  abbrev pub with_reservation : Held C → Budget C → Budget C
  with_reservation h l = record l { reservations = assign held_id h l.reservations }

  -- Under the lock: the two budgets are tested, then the reservation is written.
  unfoldable pub reserve_in :
      Limits C
      → PricedRoute C
      → Text
      → ℕ
      → C
      → Budget C
      → Result BudgetError (BudgetReservation C × Budget C)
  reserve_in policy route id tokens cost l = do
    raise_if (ltb policy.daily_token_budget (l.spent_tokens + held_tokens l.reservations + tokens))
        tokens_exceeded
    raise_if
        (floats.above
          (floats.plus (floats.plus l.spent_cost_usd (held_cost l.reservations floats.zero_cost))
            cost)
          policy.daily_cost_budget_usd)
        cost_exceeded
    ok (
      record { id = id; date = l.date; tokens = tokens; cost_usd = cost },
      with_reservation (reserved_entry id route tokens cost) l,
    )

  unfoldable pub reserve_budget :
      Limits C
      → PricedRoute C
      → Text
      → Text
      → Text
      → Text
      → Option (Budget C)
      → Result BudgetError (BudgetReservation C × Budget C)
  reserve_budget policy route prompt system_prompt id day file = do
    e ← estimate policy route prompt system_prompt
    reserve_in policy route id e.0 e.1 (read_ledger file day)

  abbrev pub cost_or_zero : Option C → C
  cost_or_zero none = floats.zero_cost
  cost_or_zero (some c) = c

  abbrev pub charged_tokens : Settlement C → ℕ
  charged_tokens s =
      if s.charge_reservation then s.reservation.tokens else number_or_zero s.actual_tokens

  abbrev pub charged_cost : Settlement C → C
  charged_cost s =
      if s.charge_reservation
      then s.reservation.cost_usd
      else floats.at_least_zero (cost_or_zero s.actual_cost_usd)

  abbrev pub settled : Settlement C → Budget C → Budget C
  settled s l = record l {
    spent_tokens = l.spent_tokens + charged_tokens s;
    spent_cost_usd = floats.plus l.spent_cost_usd (charged_cost s);
    reservations = remove held_id s.reservation.id l.reservations;
  }

  abbrev pub settle_found :
      Settlement C → Budget C → Option (Held C) → Result BudgetError (Budget C)
  settle_found s l none = err unknown_reservation
  settle_found s l (some h) = ok (settled s l)

  unfoldable pub settle_in : Settlement C → Budget C → Result BudgetError (Budget C)
  settle_in s l = settle_found s l (find held_id s.reservation.id l.reservations)

  unfoldable pub settle_budget :
      Settlement C → Text → Option (Budget C) → Result BudgetError (Budget C)
  settle_budget s day file = settle_in s (read_ledger file day)

  -- The token part of `budget_status`.
  unfoldable pub remaining_tokens : Limits C → Text → Option (Budget C) → ℕ
  remaining_tokens policy day file =
      let l = read_ledger file day in
      policy.daily_token_budget - l.spent_tokens - held_tokens l.reservations
