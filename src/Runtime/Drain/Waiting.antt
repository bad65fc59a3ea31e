-- ===== src/Runtime/Drain/Waiting.antt =====
-- What `wait_for_drain` promises, and what it does not.
use personal_ai_model.Prelude.{
  ℕ, suc, ◌≤◌, ◌≡◌, refl, ◌∙◌, true, false, List, [], ◌∷◌, ◌++◌, arith, length, All,
}
use personal_ai_model.Runtime.Drain.{
  Drain, Call, request_drain, register_inflight, complete_inflight, add_shutdown_hook, call, calls,
  is_drained, run_shutdown_hooks, poll, wait_for_drain,
}

poll-is_drained :
    (sleeps : List (List Call)) (d : Drain) → (poll sleeps d).0 ≡ is_drained (poll sleeps d).1
unfolding poll
poll-is_drained [] d = refl
poll-is_drained (sleep ∷ sleeps) d = ground (arith, poll-is_drained sleeps (calls sleep d))

-- The answer is exact: it is true if and only if, in the state that it leaves, the drain was
-- requested and no work is in flight.
pub wait_for_drain-is_drained :
    (sleeps : List (List Call)) (d : Drain)
    → (wait_for_drain sleeps d).0 ≡ is_drained (wait_for_drain sleeps d).1
unfolding wait_for_drain
wait_for_drain-is_drained sleeps d = poll-is_drained sleeps (run_shutdown_hooks d)

-- No call in the history requests the drain.
abbrev pub NoRequest : List Call → Type 0
NoRequest [] = Unit
NoRequest (request_drain ∷ cs) = ⊥
NoRequest (c ∷ cs) = NoRequest cs

requested-calls :
    (cs : List Call) (d : Drain)
    → NoRequest cs
    → d.requested ≡ false
    → (calls cs d).requested ≡ false
unfolding calls
requested-calls [] d h e = e
requested-calls (request_drain ∷ cs) d h e = absurd h
requested-calls (register_inflight ∷ cs) d h e = requested-calls cs _ h e
requested-calls (complete_inflight ∷ cs) d h e = requested-calls cs _ h (ground arith)
requested-calls (add_shutdown_hook k ∷ cs) d h e = requested-calls cs _ h e

poll-unrequested :
    (sleeps : List (List Call)) (d : Drain)
    → All NoRequest sleeps
    → d.requested ≡ false
    → (poll sleeps d).0 ≡ false
unfolding poll
poll-unrequested [] d h e = ground arith
poll-unrequested (sleep ∷ sleeps) d h e =
    ground (arith, poll-unrequested sleeps (calls sleep d) h.1 (requested-calls sleep d h.0 e))

-- With no request for a drain the wait runs to its deadline and answers false, even where no work is
-- in flight.
pub wait_for_drain-unrequested :
    (sleeps : List (List Call)) (d : Drain)
    → All NoRequest sleeps
    → d.requested ≡ false
    → (wait_for_drain sleeps d).0 ≡ false
unfolding wait_for_drain
wait_for_drain-unrequested sleeps d h e = poll-unrequested sleeps (run_shutdown_hooks d) h e

ran-calls : (cs : List Call) (d : Drain) → (calls cs d).ran ≡ d.ran
unfolding calls
ran-calls [] d = refl
ran-calls (request_drain ∷ cs) d = ran-calls cs _
ran-calls (register_inflight ∷ cs) d = ran-calls cs _
ran-calls (complete_inflight ∷ cs) d = ran-calls cs (call complete_inflight d) ∙ ground arith
ran-calls (add_shutdown_hook k ∷ cs) d = ran-calls cs _

ran-poll : (sleeps : List (List Call)) (d : Drain) → (poll sleeps d).1.ran ≡ d.ran
unfolding poll
ran-poll [] d = refl
ran-poll (sleep ∷ sleeps) d = ground (arith, ran-poll sleeps (calls sleep d), ran-calls sleep d)

-- A wait calls each hook that is registered when it starts, once and in order, before it looks at
-- the work in flight: whether or not the drain then completes.
pub ran-wait_for_drain :
    (sleeps : List (List Call)) (d : Drain) → (wait_for_drain sleeps d).1.ran ≡ d.ran ++ d.hooks
unfolding wait_for_drain
ran-wait_for_drain sleeps d = ran-poll sleeps (run_shutdown_hooks d)

-- No new work starts.
abbrev pub Quiet : List Call → Type 0
Quiet [] = Unit
Quiet (register_inflight ∷ cs) = ⊥
Quiet (c ∷ cs) = Quiet cs

-- No new work starts, and some of the work in flight finishes.
abbrev pub Finishing : List Call → Type 0
Finishing [] = ⊥
Finishing (complete_inflight ∷ cs) = Quiet cs
Finishing (register_inflight ∷ cs) = ⊥
Finishing (c ∷ cs) = Finishing cs

Quiet-calls :
    (cs : List Call) (d : Drain) (n : ℕ)
    → Quiet cs
    → d.requested ≡ true
    → d.inflight ≤ n
    → ((calls cs d).requested ≡ true) × ((calls cs d).inflight ≤ n)
unfolding calls
Quiet-calls [] d n q r h = (r, h)
Quiet-calls (request_drain ∷ cs) d n q r h = Quiet-calls cs _ n q refl h
Quiet-calls (register_inflight ∷ cs) d n q r h = absurd q
Quiet-calls (complete_inflight ∷ cs) d n q r h = Quiet-calls cs _ n q (ground arith) (ground arith)
Quiet-calls (add_shutdown_hook k ∷ cs) d n q r h = Quiet-calls cs _ n q r h

Finishing-calls :
    (cs : List Call) (d : Drain) (n : ℕ)
    → Finishing cs
    → d.requested ≡ true
    → d.inflight ≤ suc n
    → ((calls cs d).requested ≡ true) × ((calls cs d).inflight ≤ n)
unfolding calls
Finishing-calls [] d n q r h = absurd q
Finishing-calls (request_drain ∷ cs) d n q r h = Finishing-calls cs _ n q refl h
Finishing-calls (register_inflight ∷ cs) d n q r h = absurd q
Finishing-calls (complete_inflight ∷ cs) d n q r h =
    Quiet-calls cs _ n q (ground arith) (ground arith)
Finishing-calls (add_shutdown_hook k ∷ cs) d n q r h = Finishing-calls cs _ n q r h

poll-drains :
    (sleeps : List (List Call)) (d : Drain)
    → All Finishing sleeps
    → d.requested ≡ true
    → d.inflight ≤ length sleeps
    → (poll sleeps d).0 ≡ true
unfolding poll
poll-drains [] d h r n = ground arith
poll-drains (sleep ∷ sleeps) d h r n =
    let (r', n') = Finishing-calls sleep d (length sleeps) h.0 r n in
    ground (arith, poll-drains sleeps (calls sleep d) h.1 r' n')

-- A requested drain completes in time if, once it is asked for, no new work starts, each sleep sees
-- some work finish, and there are as many sleeps before the deadline as work in flight.
pub wait_for_drain-drains :
    (sleeps : List (List Call)) (d : Drain)
    → All Finishing sleeps
    → d.requested ≡ true
    → d.inflight ≤ length sleeps
    → (wait_for_drain sleeps d).0 ≡ true
unfolding wait_for_drain
wait_for_drain-drains sleeps d h r n = poll-drains sleeps (run_shutdown_hooks d) h r n
