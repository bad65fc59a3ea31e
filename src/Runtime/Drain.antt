-- ===== src/Runtime/Drain.antt =====
-- DrainCoordinator of runtime.py. Each method holds the coordinator's lock, so a history is a list of
-- calls. `wait_for_drain` polls every 0.1 s up to its deadline: it is given, for each sleep that
-- fits before the deadline, the calls that other threads make during it.
-- A shutdown hook is a name; what it does, and an exception that it raises, stay outside.
pub mod Waiting
use personal_ai_model.Prelude.{
  ℕ, zero, suc, ◌-◌, Bool, true, false, ◌&&◌, List, [], ◌∷◌, ◌++◌, nat_eq, ltb, if◌then◌else◌, ◌≡◌,
  refl,
}

pub record Drain : Type 0 where
  pub requested : Bool
  pub inflight : ℕ
  pub hooks : List ℕ
  pub ran : List ℕ  -- the hooks that were called, in order

unfoldable pub new_drain : Drain
new_drain = record { requested = false; inflight = 0; hooks = []; ran = [] }

pub data Call : Type 0 where
  request_drain register_inflight complete_inflight : Call
  add_shutdown_hook : ℕ → Call

unfoldable pub call : Call → Drain → Drain
call request_drain d = record d { requested = true }
call register_inflight d = record d { inflight = suc d.inflight }
call complete_inflight d = if ltb 0 d.inflight then record d { inflight = d.inflight - 1 } else d
call (add_shutdown_hook h) d = record d { hooks = d.hooks ++ h ∷ [] }

unfoldable pub calls : List Call → Drain → Drain
unfolding call
calls [] d = d
calls (c ∷ cs) d = calls cs (call c d)

unfoldable pub is_draining : Drain → Bool
is_draining d = d.requested

unfoldable pub is_drained : Drain → Bool
unfolding is_draining
is_drained d = is_draining d && nat_eq d.inflight 0

unfoldable pub run_shutdown_hooks : Drain → Drain
run_shutdown_hooks d = record d { ran = d.ran ++ d.hooks; hooks = [] }

-- The loop up to the deadline, and the last look after it.
unfoldable pub poll : List (List Call) → Drain → Bool × Drain
unfolding is_drained calls
poll [] d = (is_drained d, d)
poll (sleep ∷ sleeps) d =
    let rest = poll sleeps (calls sleep d) in if is_drained d then (true, d) else rest

unfoldable pub wait_for_drain : List (List Call) → Drain → Bool × Drain
unfolding poll run_shutdown_hooks
wait_for_drain sleeps d = poll sleeps (run_shutdown_hooks d)

unfoldable pub reset : Drain → Drain
reset d = record d { requested = false; inflight = 0; hooks = [] }
