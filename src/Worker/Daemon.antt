-- ===== src/Worker/Daemon.antt =====
-- The loop of `supervisor_daemon_run` of supervisor.py. What the loop reads of its surroundings in each turn, and
-- how many tickets the turn has executed, is one entry of a list: the list is as long as the loop is watched.
use personal_ai_model.Prelude.{
  ℕ, suc, ◌+◌, ◌≤◌, ◌<◌, ◌≡◌, ◌≢◌, refl, ◌⊎◌, Bool, false, ◌||◌, Option, none, some, List, [], ◌∷◌,
  arith, inl, inr, if◌then◌else◌, length, ltb, leb,
}
use personal_ai_model.Prelude.Result.{Result, ok, ◌>>◌, raise_if}

-- One turn: the drain and the emergency stop at its head, before its tickets and at its end, and whether its
-- supervisor cycle raises.
pub record Turn : Type 0 where
  pub draining : Bool
  pub stop : Bool
  pub raises : Bool
  pub draining_before : Bool
  pub stop_before : Bool
  pub executed : ℕ
  pub draining_after : Bool
  pub stop_after : Bool

pub data Exit : Type 0 where
  drained emergency_stop completed raised : Exit

pub record Summary : Type 0 where
  pub status : Exit
  pub cycles_completed : ℕ
  pub total_processed : ℕ

abbrev pub summary_of : Exit → ℕ → ℕ → Summary
summary_of reason cycles processed = record {
  status = reason;
  cycles_completed = cycles;
  total_processed = processed;
}

-- not indefinite and max_cycles is not None and cycle_index >= max_cycles
abbrev pub is_limit : Option ℕ → ℕ → Bool
is_limit none cycle_index = false
is_limit (some max_cycles) cycle_index = leb max_cycles cycle_index

-- Before and after the work of a turn: the reason to leave the loop, if there is one.
abbrev pub leaves_early : Option ℕ → ℕ → Turn → Option Exit
leaves_early limit i c =
    if c.draining
    then some drained
    else if c.stop
    then some emergency_stop
    else if is_limit limit i
    then some completed
    else if c.raises
    then some raised
    else if c.draining_before
    then some drained
    else if c.stop_before
    then some emergency_stop
    else none

abbrev pub leaves_late : Option ℕ → ℕ → Turn → Option Exit
leaves_late limit i c =
    if c.draining_after
    then some drained
    else if c.stop_after
    then some emergency_stop
    else if is_limit limit i
    then some completed
    else none

abbrev pub exit_or : Option Exit → ℕ → ℕ → Option Summary → Option Summary
exit_or none i processed rest = rest
exit_or (some reason) i processed rest = some (summary_of reason i processed)

-- `none`: the loop is still running when the list ends.
unfoldable pub daemon_loop : Option ℕ → ℕ → ℕ → List Turn → Option Summary
daemon_loop limit i processed [] = none
daemon_loop limit i processed (c ∷ cs) =
    let rest = daemon_loop limit (suc i) (processed + c.executed) cs in
    exit_or (leaves_early limit i c) i processed
      (exit_or (leaves_late limit (suc i) c) (suc i) (processed + c.executed) rest)

pub data DaemonError : Type 0 where
  bad_interval bad_workers bad_cycles : DaemonError

unfoldable pub supervisor_daemon_run :
    ℕ → Option ℕ → ℕ → Bool → List Turn → Result DaemonError (Option Summary)
supervisor_daemon_run interval_seconds max_cycles max_workers indefinite turns = do
  raise_if (ltb interval_seconds 1 || ltb 3600 interval_seconds) bad_interval
  raise_if (ltb max_workers 1 || ltb 16 max_workers) bad_workers
  ok (daemon_loop (if indefinite then none else max_cycles) 0 0 turns)

unfoldable pub supervisor_run : ℕ → ℕ → List Turn → Result DaemonError (Option Summary)
unfolding supervisor_daemon_run
supervisor_run interval_seconds max_cycles turns = do
  raise_if (ltb interval_seconds 60 || ltb 3600 interval_seconds) bad_interval
  raise_if (ltb max_cycles 1 || ltb 12 max_cycles) bad_cycles
  supervisor_daemon_run interval_seconds (some max_cycles) 4 false turns

-- The loop left off within its limit, and where it ran to the limit, exactly there.
abbrev pub Finished : ℕ → Option Summary → Type 0
Finished limit none = ⊥
Finished limit (some s) =
    (s.cycles_completed ≤ limit) × ((s.status ≢ completed) ⊎ (s.cycles_completed ≡ limit))

exit-Finished :
    (limit i processed : ℕ) (o : Option Exit) (rest : Option Summary)
    → i ≤ limit
    → (o ≡ none → Finished limit rest)
    → (o ≡ some completed → i ≡ limit)
    → Finished limit (exit_or o i processed rest)
exit-Finished limit i processed none rest le more last = more refl
exit-Finished limit i processed (some drained) rest le more last = (le, inl (λ e. cc))
exit-Finished limit i processed (some emergency_stop) rest le more last = (le, inl (λ e. cc))
exit-Finished limit i processed (some raised) rest le more last = (le, inl (λ e. cc))
exit-Finished limit i processed (some completed) rest le more last = (le, inr (last refl))

early-Finished :
    (limit i processed : ℕ) (c : Turn) (rest : Option Summary)
    → i ≤ limit
    → (is_limit (some limit) i ≡ false → Finished limit rest)
    → Finished limit (exit_or (leaves_early (some limit) i c) i processed rest)
early-Finished limit i processed c rest le h =
    exit-Finished limit i processed _ rest le (λ e. h (ground (arith, e))) (λ e. ground (arith, e))

late-Finished :
    (limit i processed : ℕ) (c : Turn) (rest : Option Summary)
    → i ≤ limit
    → (is_limit (some limit) i ≡ false → Finished limit rest)
    → Finished limit (exit_or (leaves_late (some limit) i c) i processed rest)
late-Finished limit i processed c rest le h =
    exit-Finished limit i processed _ rest le (λ e. h (ground (arith, e))) (λ e. ground (arith, e))

loop-Finished :
    (limit i processed : ℕ) (cs : List Turn)
    → i ≤ limit
    → limit < i + length cs
    → Finished limit (daemon_loop (some limit) i processed cs)
unfolding daemon_loop
loop-Finished limit i processed [] le h = absurd (omega (arith, le, h))
loop-Finished limit i processed (c ∷ cs) le h = early-Finished limit i processed c _ le λ more.
    late-Finished limit (suc i) (processed + c.executed) c _ (ground (arith, more)) λ again.
      loop-Finished limit (suc i) (processed + c.executed) cs (ground (arith, more))
        (omega (arith, h))

Finished-some :
    (limit : ℕ) (o : Option Summary)
    → Finished limit o
    → (s : Summary) × (o ≡ some s) × Finished limit (some s)
Finished-some limit none f = absurd f
Finished-some limit (some s) f = (s, refl, f)

runs_loop :
    (interval_seconds max_cycles : ℕ) (turns : List Turn)
    → 60 ≤ interval_seconds
    → interval_seconds ≤ 3600
    → 1 ≤ max_cycles
    → max_cycles ≤ 12
    → supervisor_run interval_seconds max_cycles turns
      ≡ ok (daemon_loop (some max_cycles) 0 0 turns)
unfolding supervisor_run supervisor_daemon_run
runs_loop interval_seconds max_cycles turns h1 h2 h3 h4 = ground arith

-- With a limit on its cycles, the daemon ends, whatever its surroundings do: it never completes more cycles
-- than the limit, and says that it is completed at the limit only.
pub supervisor_run-ends :
    (interval_seconds max_cycles : ℕ) (turns : List Turn)
    → 60 ≤ interval_seconds
    → interval_seconds ≤ 3600
    → 1 ≤ max_cycles
    → max_cycles ≤ 12
    → max_cycles < length turns
    → (s : Summary) × (supervisor_run interval_seconds max_cycles turns ≡ ok (some s))
      × Finished max_cycles (some s)
unfolding supervisor_run
supervisor_run-ends interval_seconds max_cycles turns h1 h2 h3 h4 h5 =
    let (s, e, f) =
      Finished-some max_cycles _
        (loop-Finished max_cycles 0 0 turns (omega arith) (omega (arith, h5))) in
    (s, rw (runs_loop interval_seconds max_cycles turns h1 h2 h3 h4) (rw (e) refl), f)
