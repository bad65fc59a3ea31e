-- ===== src/Execution/Tests.antt =====
-- Claims and results on one record.
use personal_ai_model.Prelude.{◌≡◌, ◌<◌, ◌+◌, ◌*◌, refl, some, [], ◌∷◌, arith, get_elem?}
use personal_ai_model.Prelude.Text.{Text, codes, text_discrete, optional_discrete}
use personal_ai_model.Prelude.Result.{ok, err}
use personal_ai_model.Core.{markdown_escape}
use personal_ai_model.Execution.{Stage, ExecutionError, planned, running, completed, passed, second}
use personal_ai_model.Execution.Claim.{
  release_expired, check_route, claim_execution_stage, claimed_record,
}
use personal_ai_model.Execution.Artifacts.{
  any_sensitive, validate_artifacts, safe_artifact_paths, safe_artifact_path, relative_to,
  check_allowed, is_within, join_parts,
}
use personal_ai_model.Execution.Outcome.{
  outcome_named, is_replay, record_current, record_execution_result, settle_stage, check_current,
  find_replay, settled_record,
}
use personal_ai_model.Execution.Steps.{claim, report, recover, run}
use personal_ai_model.Execution.Completed.{StandsAt, run-StandsAt}
use personal_ai_model.Execution.Leases.{claim_exclusive}
use personal_ai_model.Execution.Race.{
  ClaimRequest, answered, schedule, overlapped, both_idle, IsLeased, claims-overlap,
}
use personal_ai_model.Execution.Replay.{Undispatched}
use personal_ai_model.Execution.Examples.{
  root, resolve, review, record_of, env, leased, result, reviewed,
}

claims :
    claim_execution_stage (env 5) (codes "stage-1") 60 (codes "L") (record_of planned review)
    ≡ ok (leased, claimed_record (env 5) leased (record_of planned review))
unfolding claim_execution_stage text_discrete release_expired check_route
claims = refl

soon : 6 < 5 + 60 * second
soon = omega arith

claim_exclusive_example : ¬ (
    claim_execution_stage (env 6) (codes "stage-1") 60 (codes "M") (
      run root resolve
        (recover 6 (codes "now") ∷ [])
        (claimed_record (env 5) leased (record_of planned review)))
    ≡ ok (leased, record_of running leased))
claim_exclusive_example =
    claim_exclusive root resolve (env 5) (env 6) (codes "stage-1") (codes "stage-1") (codes "L")
      (codes "M") 60 60 (record_of planned review)
      (claimed_record (env 5) leased (record_of planned review)) leased
      (leased, record_of running leased) (recover 6 (codes "now") ∷ []) refl claims (soon, tt) soon

abbrev asked : Text → ClaimRequest
asked lease = record { env = env 5; stage_id = codes "stage-1"; lease_seconds = 60; lease = lease }

claims-overlap_example :
    (a : Stage) × (b : Stage) × ((schedule
        (asked (codes "L"))
        (asked (codes "M"))
        overlapped
        (both_idle (record_of planned review))).first
      ≡ answered (ok a))
    × ((schedule
          (asked (codes "L"))
          (asked (codes "M"))
          overlapped
          (both_idle (record_of planned review))).other
        ≡ answered (ok b))
    × (a.lease_id ≡ some (codes "L"))
    × IsLeased (codes "M") b (
        (schedule
          (asked (codes "L"))
          (asked (codes "M"))
          overlapped
          (both_idle (record_of planned review))).file)
    × ((y : ExecutionError) × (record_current root resolve (codes "now") result passed (
            (schedule
              (asked (codes "L"))
              (asked (codes "M"))
              overlapped
              (both_idle (record_of planned review))).file)
          ≡ err y))
claims-overlap_example =
    claims-overlap (asked (codes "L")) (asked (codes "M")) root resolve (codes "now") result passed
      (record_of planned review) (leased, claimed_record (env 5) leased (record_of planned review))
      refl refl refl claims refl (λ e. ground arith)

settles : settle_stage root resolve result passed leased ≡ ok reviewed
unfolding settle_stage markdown_escape validate_artifacts safe_artifact_paths safe_artifact_path
    relative_to text_discrete any_sensitive check_allowed is_within join_parts
settles = refl

accepts :
    record_execution_result root resolve (codes "now") result (record_of running leased)
    ≡ ok (passed, settled_record (codes "now") reviewed passed (record_of running leased))
unfolding record_execution_result outcome_named find_replay is_replay optional_discrete
    record_current check_current text_discrete
accepts = rw (settles) refl

leased-Undispatched : (s : Stage) → get_elem? (leased ∷ []) 0 ≡ some s → Undispatched s
leased-Undispatched s e = ground arith

run-StandsAt_example : StandsAt reviewed (
    run root resolve
      (claim (env 6) (codes "stage-1") 60 (codes "M") ∷ report (codes "now") result ∷ [])
      (record_of completed reviewed))
run-StandsAt_example =
    run-StandsAt root resolve reviewed refl
      (claim (env 6) (codes "stage-1") 60 (codes "M") ∷ report (codes "now") result ∷ [])
      (record_of completed reviewed) (refl, refl)
