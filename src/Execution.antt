-- ===== src/Execution.antt =====
-- src/guardian_agent/execution.py: the durable execution governor. A record file is a value; an
-- operation loads it, and gives back what it saves, or raises and saves nothing. The code takes no
-- lock between the two but in the startup reconciliation (Race). The clock, the random ids, the stop flag and the provider files are arguments.
pub mod Claim
pub mod Artifacts
pub mod Planning
pub mod PlanExecution
pub mod Advance
pub mod Outcome
pub mod Dispatch
pub mod Recovery
pub mod Cases
pub mod Plan
pub mod Steps
pub mod Completed
pub mod Review
pub mod Leases
pub mod Race
pub mod Replay
pub mod Fresh
pub mod Planned
pub mod Paths
pub mod Undispatched
pub mod Show
mod Examples
mod Tests
mod PlanTests
use personal_ai_model.Prelude.{
  ℕ, ◌*◌, Bool, true, false, not, ◌&&◌, ◌||◌, Option, none, some, List, [], ◌∷◌, ◌++◌, ltb, take,
  take_last, if◌then◌else◌,
}
use personal_ai_model.Prelude.Text.{Text, codes, lower, contains, is_empty, truthy, ◌==?◌}
use personal_ai_model.Prelude.Result.{Result, ok, err}
use personal_ai_model.Core.{markdown_escape}

pub data Executor : Type 0 where
  ollama freebuff omniroute primary_review : Executor

pub data StageState : Type 0 where
  pending claimed dispatched passed failed skipped : StageState

pub data RecordStatus : Type 0 where
  planned running awaiting_final_review completed failed : RecordStatus

-- ExecutionStage
pub record Stage : Type 0 where
  pub id : Text
  pub executor : Executor
  pub provider : Option Text
  pub model : Option Text
  pub purpose : Text
  pub selection_reason : Text
  pub state : StageState
  pub attempt_count : ℕ
  pub lease_id : Option Text
  pub lease_expires_at : Option ℕ
  pub dispatch_id : Option Text
  pub dispatched_at : Option Text
  pub evidence : Text
  pub artifact_path : Option Text
  pub adapter_target : Option Text
  pub adapter_token : Option Text
  pub allowed_paths : List Text
  pub artifacts_changed : List Text

pub record Event : Type 0 where
  pub timestamp : Text
  pub kind : Text
  pub detail : Text

-- ExecutionRecord
pub record Execution : Type 0 where
  pub id : Text
  pub orchestration_id : Text
  pub task : Text
  pub task_type : Text
  pub status : RecordStatus
  pub stages : List Stage
  pub current_stage_index : ℕ
  pub created_at : Text
  pub updated_at : Text
  pub events : List Event

-- The messages of `GuardianError`; `attribute_error` is Python's own, on `None.lstrip`.
pub data ExecutionError : Type 0 where
  kill_switch_active invalid_lease_seconds no_stage not_current already_claimed not_pending :
      ExecutionError
  prohibited_model unhealthy_provider capacity_blocked : ExecutionError
  invalid_outcome dispatch_mismatch target_mismatch token_mismatch lease_mismatch not_claimed :
      ExecutionError
  id_required invalid_id not_dispatched no_approved_paths : ExecutionError
  no_evidence outside_root protected_path no_writable_paths outside_allowed attribute_error :
      ExecutionError

abbrev pub max_evidence_length : ℕ
max_evidence_length = 10000

abbrev pub max_event_history : ℕ
max_event_history = 100

-- Clock readings are in microseconds.
abbrev pub second : ℕ
second = 1000000

abbrev pub or_raise {ℓ} : {A : Type ℓ} → Option A → ExecutionError → Result ExecutionError A
or_raise none e = err e
or_raise (some a) e = ok a

abbrev pub is_pending : StageState → Bool
is_pending pending = true
is_pending _ = false

abbrev pub is_claimed : StageState → Bool
is_claimed claimed = true
is_claimed _ = false

abbrev pub is_dispatched : StageState → Bool
is_dispatched dispatched = true
is_dispatched _ = false

-- past_stage.state in ("passed", "failed", "skipped")
abbrev pub is_settled : StageState → Bool
is_settled passed = true
is_settled StageState.failed = true
is_settled skipped = true
is_settled _ = false

abbrev pub is_review : Executor → Bool
is_review primary_review = true
is_review _ = false

abbrev pub is_omniroute : Executor → Bool
is_omniroute omniroute = true
is_omniroute _ = false

-- s.executor == "omniroute" and "final review" in s.purpose.lower()
unfoldable pub is_final_review : Stage → Bool
is_final_review s = is_omniroute s.executor && contains (lower s.purpose) (codes "final review")

-- lease_expires_at and lease_expires_at > now; and lease_expires_at <= now
abbrev pub is_live : Option ℕ → ℕ → Bool
is_live none now = false
is_live (some t) now = ltb 0 t && ltb now t

abbrev pub is_over : Option ℕ → ℕ → Bool
is_over none now = false
is_over (some t) now = ltb 0 t && not (ltb now t)

-- bound and (not given or bound != given)
abbrev pub is_unbound : Option Text → Option Text → Bool
is_unbound bound given = truthy bound && (not (truthy given) || not (bound ==? given))

abbrev pub executor_name : Executor → Text
executor_name ollama = codes "ollama"
executor_name freebuff = codes "freebuff"
executor_name omniroute = codes "omniroute"
executor_name primary_review = codes "primary-review"

-- f"Stage {id} ({executor}){rest}"
abbrev pub about_stage : Stage → Text → Text
about_stage s rest =
    codes "Stage " ++ (s.id ++ (codes " (" ++ (executor_name s.executor ++ (codes ")" ++ rest))))

-- The history keeps its last hundred entries.
unfoldable pub append_to : Text → Text → Text → List Event → List Event
append_to now kind detail events = take_last max_event_history (
    events
    ++ record {
      timestamp = now;
      kind = kind;
      detail = take max_evidence_length (markdown_escape detail);
    }
      ∷ [])

-- _append_event(record, kind, detail)
unfoldable pub append_event : Text → Text → Text → Execution → Execution
append_event now kind detail r = record r { events = append_to now kind detail r.events }

-- record.updated_at = now_utc(), and the file is written.
unfoldable pub save : Text → Execution → Execution
save now r = record r { updated_at = now }
