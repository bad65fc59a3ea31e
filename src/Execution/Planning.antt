-- ===== src/Execution/Planning.antt =====
-- `plan_execution` of execution.py: the stages of a dispatched orchestration. Arguments are the routes
-- of `list_routes_for_task`, the task class of orchestration.py, the match of
-- `_PROTECTED_PATH_PATTERNS` by Python's `re`, and `str.isalnum`.
use personal_ai_model.Prelude.{
  ℕ, suc, ◌+◌, Bool, true, false, not, ◌&&◌, ◌||◌, Option, none, some, List, [], ◌∷◌, ◌++◌, leb,
  ltb, length, if◌then◌else◌,
}
use personal_ai_model.Prelude.Text.{Text, codes, ◌==◌, ◌==?◌}
use personal_ai_model.ModelPolicy.{is_model_allowed}
use personal_ai_model.Health.{Health, is_healthy}
use personal_ai_model.Execution.{
  Executor, ollama, freebuff, omniroute, primary_review, Stage, pending,
}

-- A route, as gateway.py lists it.
pub record Route : Type 0 where
  pub provider : Text
  pub model : Text
  pub cost_tier : Text
  pub usage_class : Text
  pub route_priority : Text

pub data Usage : Type 0 where
  usable_final_review usable_omniroute unusable : Usage

-- _classify_omniroute_usage
unfoldable pub classify_usage : Route → Usage
classify_usage r =
    if not (is_model_allowed r.model)
    then unusable
    else if (r.provider == codes "local-omniroute") && (r.usage_class == codes "final-review")
    then usable_final_review
    else if (r.provider == codes "local-omniroute")
        && ((r.cost_tier == codes "free")
            || (r.cost_tier == codes "free-limited")
            || (r.cost_tier == codes "subscription"))
    then usable_omniroute
    else unusable

abbrev pub is_usable_final_review : Usage → Bool
is_usable_final_review usable_final_review = true
is_usable_final_review _ = false

abbrev pub is_usable_omniroute : Usage → Bool
is_usable_omniroute usable_omniroute = true
is_usable_omniroute _ = false

unfoldable pub filter_routes : (Route → Bool) → List Route → List Route
filter_routes keep [] = []
filter_routes keep (r ∷ routes) =
    let rest = filter_routes keep routes in if keep r then r ∷ rest else rest

-- all_final_candidates
unfoldable pub final_candidate : List Health → Route → Bool
final_candidate health r = is_usable_final_review (classify_usage r) && is_healthy r.provider health

-- all_local
unfoldable pub local_candidate : List Health → Route → Bool
local_candidate health r =
    (r.provider == codes "local-ollama")
    && (r.cost_tier == codes "local")
    && is_model_allowed r.model
    && is_healthy r.provider health

-- all_omniroute
unfoldable pub omniroute_candidate : List Health → Route → Bool
omniroute_candidate health r =
    (r.provider == codes "local-omniroute")
    && is_model_allowed r.model
    && is_usable_omniroute (classify_usage r)
    && is_healthy r.provider health

-- A plan has at most six stages, so the number is one digit.
abbrev pub digit : ℕ → Text
digit n = (b'0' + n) ∷ []

-- f"stage-{len(stages) + 1}"
abbrev pub next_id : List Stage → Text
next_id stages = codes "stage-" ++ digit (suc (length stages))

abbrev pub new_stage :
    List Stage → Executor → Option Text → Option Text → Text → Text → List Text → Stage
new_stage stages executor provider model purpose selection_reason paths = record {
  id = next_id stages;
  executor = executor;
  provider = provider;
  model = model;
  purpose = purpose;
  selection_reason = selection_reason;
  state = pending;
  attempt_count = 0;
  lease_id = none;
  lease_expires_at = none;
  dispatch_id = none;
  dispatched_at = none;
  evidence = [];
  artifact_path = none;
  adapter_target = none;
  adapter_token = none;
  allowed_paths = paths;
  artifacts_changed = [];
}

-- f"{before}'{task}'"
abbrev pub quoted : Text → Text → Text
quoted before task = before ++ (codes "'" ++ (task ++ codes "'"))

-- What the stages are built from; `ordinary_max` is the bound on the ordinary ones.
pub record Sources : Type 0 where
  pub task : Text
  pub paths : List Text
  pub health : List Health
  pub routes : List Route
  pub include_freebuff : Bool

abbrev pub finals : Sources → List Route
finals q = filter_routes (final_candidate q.health) q.routes

abbrev pub ordinary_max : List Route → ℕ
ordinary_max [] = 5
ordinary_max (_ ∷ _) = 4

-- A stage is added while there is room for it.
unfoldable pub append_below : ℕ → Stage → List Stage → List Stage
append_below most s stages = if ltb (length stages) most then stages ++ s ∷ [] else stages

-- The best of the routes becomes a stage.
unfoldable pub add_best : ℕ → List Route → (List Stage → Route → Stage) → List Stage → List Stage
add_best most [] build stages = stages
add_best most (best ∷ _) build stages = append_below most (build stages best) stages

abbrev pub freebuff_stage : Sources → List Stage → Stage
freebuff_stage q stages =
    new_stage stages freebuff none none
      (quoted (codes "Primary interactive coding session for ") q.task)
      (codes "FreeBuff-first policy: FreeBuff is primary implementation stage") q.paths

-- 1. FreeBuff
unfoldable pub add_freebuff : Sources → ℕ → List Stage → List Stage
add_freebuff q most stages =
    if q.include_freebuff then append_below most (freebuff_stage q stages) stages else stages

abbrev pub local_stage : Sources → List Stage → Route → Stage
local_stage q stages best =
    new_stage stages ollama (some best.provider) (some best.model)
      (quoted (codes "Fallback local execution for ") q.task ++ codes " (Aider + Qwen)")
      (codes "Best available local Ollama fallback route (when FreeBuff is unavailable or fails)")
      q.paths

-- 2. the best healthy local route
unfoldable pub add_local : Sources → ℕ → List Stage → List Stage
add_local q most stages =
    add_best most (filter_routes (local_candidate q.health) q.routes) (local_stage q) stages

-- any(s.model == model_id for s in stages)
unfoldable pub is_used : Text → List Stage → Bool
is_used model [] = false
is_used model (s ∷ stages) = (s.model ==? some model) || is_used model stages

abbrev pub omniroute_stage : Sources → List Stage → Route → Stage
omniroute_stage q stages r =
    new_stage stages omniroute (some r.provider) (some r.model)
      (quoted (codes "Free/free-limited OmniRoute specialist for ") q.task)
      (codes "Cost tier: " ++ (r.cost_tier ++ (codes ", priority: " ++ r.route_priority))) q.paths

-- 3. at most three OmniRoute routes, each with a model of its own
unfoldable pub add_omniroute : Sources → ℕ → List Route → ℕ → List Stage → List Stage
add_omniroute q most [] added stages = stages
add_omniroute q most (r ∷ routes) added stages =
    let used = is_used r.model stages in
    let rest =
      add_omniroute q most routes (if used then added else suc added)
        (if used then stages else stages ++ omniroute_stage q stages r ∷ []) in
    if leb 3 added || leb most (length stages) then stages else rest

abbrev pub final_stage : Sources → List Stage → Route → Stage
final_stage q stages best =
    new_stage stages omniroute (some best.provider) (some best.model)
      (codes "Final review reserve route")
      (codes "usage_class == final-review; reserved for final model review") q.paths

-- 4. the reserved final-review route
unfoldable pub add_final : Sources → List Stage → List Stage
add_final q stages = add_best 5 (finals q) (final_stage q) stages

-- 5. the manual primary review
unfoldable pub add_review : Sources → List Stage → List Stage
add_review q stages =
    stages
    ++ new_stage stages primary_review none none (codes "Manual primary-model final-green-signal")
        (codes "Mandatory final authority: user or configured primary model") q.paths
      ∷ []

-- The ordinary stages; `most` is ordinary_max.
unfoldable pub ordinary_stages : Sources → ℕ → List Stage
ordinary_stages q most =
    let first = add_local q most (add_freebuff q most []) in
    add_omniroute q most (filter_routes (omniroute_candidate q.health) q.routes) 0 first

unfoldable pub plan_stages : Sources → List Stage
plan_stages q = add_review q (add_final q (ordinary_stages q (ordinary_max (finals q))))
