-- ===== src/Lib.antt =====
-- Guardian Agent (src/guardian_agent): the core of the agent, modelled file by file.
--
-- The program keeps its state in JSON files below .agent/. An operation loads a file, checks, changes
-- the value and writes it back, or raises GuardianError and writes nothing. In the model a file is a
-- value, an operation a function from the value to the value that is written, and an error a
-- constructor; serialisation and the journal of .agent/ are left out. The clock, random ids, the file
-- system and code that stands elsewhere are arguments.
--
-- A sequence of calls is one where each call loads what the one before it wrote. The approval queue, the
-- ledger, the task queue and the budget are changed under a lock from the load to the write, so that
-- the calls of several processes do form such a sequence. The records of execution.py are not, except
-- in the startup reconciliation, nor are those of workflow.py, orchestration.py, accounts.py and health.py: for
-- these the sequences are of calls that do not overlap, and Execution/Race.antt is about claims that do.
--
-- Prelude: texts as lists of code points, lists over native numbers, results, lookup by a key.
-- Core: core.py, `markdown_escape` alone.
-- ModelPolicy: model_policy.py. `normalize_model_id`, `is_model_allowed`, `require_model_allowed`.
-- Policy: policy.py, the approval queue. Validation is `_validate_approval_scope`; the operations keep
--   the names of the code. `sanitize` stands for `sanitize_url_for_audit`, which rests on urllib.
-- Runtime: runtime.py. Tasks (queue and recovery), Stop (the emergency stop, lifted by consuming an
--   approval of Policy), Locks (named locks), Drain (DrainCoordinator, as a list of calls).
-- Health: health.py, the error counts of the providers.
-- Execution: execution.py. Planning and PlanExecution are `plan_execution`, Claim is
--   `claim_execution_stage` (it asks ModelPolicy, Health and the time of provider_capacity.py),
--   Artifacts `_safe_artifact_path` and the allowed paths, Outcome and Advance
--   `record_execution_result`, Dispatch the asynchronous dispatch, its revert and the startup
--   reconciliation, Recovery `recover_execution`, Show what a reader is given. Cases has one
--   rule for each operation, Steps runs them in any order on one record, Race two claims at once.
--
-- Ledger: connectors.py, class IdempotencyLedger. Reserve is `reserve` with the recovery of interrupted
--   reconciliations, Settle `abort_preflight`, `complete` and `mark_unknown`, Reconcile the three phases
--   of `reconcile`, whose second one is a consumption of Policy, Protocol the whole of `reconcile` with what
--   other processes call between its parts. Steps has every locked part as a step,
--   View and Phases say what the steps make of one key, Asked and Resolved what a
--   reconciliation is given and leaves, Exclusion, Crash and Reconciled what follows.
-- Workflow: workflow.py. Gates are the calls that move a workflow on, Order its stages, History any calls.
-- Budget: budget.py. Totals and Spending count the tokens that a day has spent and reserved.
-- Worker: executor_worker.py and supervisor.py. The supervisor writes tickets for the stages of Execution, the
--   worker checks them against the record and executes them (Tickets); Cycle is one cycle of the supervisor,
--   Daemon the loop of its daemon.
-- Router: worker_router.py, and the task sizes of aider.py. What JCode and Aider do is an argument.
-- Accounts: accounts.py, the ids, the registry and its revocation.
-- Orchestration: orchestration.py. The draft, its confirmation, which starts a workflow of Workflow, and its
--   dispatch (Lifecycle); the preview of the routes (Preview).
--
-- Bounds: the loops of the code run over lists, and so do those of the model. The drain's polling loop and the
-- daemon are given a list with one entry for each turn in which they are watched: as many sleeps as fit before
-- the deadline, and more turns than the limit on the cycles. Code points stand for characters; case and blanks
-- are those of ASCII. Costs are abstract floats.
--
-- Not modelled: the JSON files and their locks, the list of the executions, policy.json, the signal handlers and
-- the thread pool, the tail of some messages of the history (counts, stage numbers); of the modules above, what
-- talks to a provider, a browser or another program; and the other modules (gateway, adapters, browser operator,
-- bridges to JCode, Hermes and FreeBuff, vault, knowledge, services and command line).
pub mod Prelude
pub mod Core
pub mod ModelPolicy
pub mod Policy
pub mod Runtime
pub mod Health
pub mod Execution
pub mod Ledger
pub mod Workflow
pub mod Budget
pub mod Worker
pub mod Router
pub mod Accounts
pub mod Orchestration
