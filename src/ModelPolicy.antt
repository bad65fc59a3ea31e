-- ===== src/ModelPolicy.antt =====
-- src/guardian_agent/model_policy.py: the deny list of models, as every route and handoff asks it.
pub mod Normal
pub mod Refusal
mod Tests
use personal_ai_model.Prelude.{
  ℕ, ◌≡◌, refl, Bool, true, false, not, ◌&&◌, ◌||◌, List, [], ◌∷◌, leb, nat_eq, if◌then◌else◌,
}
use personal_ai_model.Prelude.Text.{Text, codes, strip, is_space, lower, to_lower, contains}
use personal_ai_model.Prelude.Result.{Result, ok, err}

abbrev pub prohibited_models : List Text
prohibited_models = codes "claude-sonnet-4.6" ∷ []

abbrev pub dash : ℕ
dash = b'-'

-- [a-z0-9]
unfoldable pub is_alnum : ℕ → Bool
is_alnum c = (leb b'a' c && leb c b'z') || (leb b'0' c && leb c b'9')

-- re.sub(r"p+", "-", s): each maximal run becomes one dash. The flag says that a run is open.
unfoldable pub sub_runs : (ℕ → Bool) → Bool → Text → Text
sub_runs p inside [] = []
sub_runs p inside (c ∷ s) =
    let rest = sub_runs p (p c) s in
    if p c then (if inside then rest else dash ∷ rest) else c ∷ rest

abbrev pub is_separator : ℕ → Bool
is_separator c = not (is_alnum c)

abbrev pub is_dash : ℕ → Bool
is_dash c = nat_eq c dash

unfoldable pub normalize_model_id : Text → Text
unfolding sub_runs strip is_alnum to_lower
normalize_model_id model_id =
    strip is_dash
      (sub_runs is_dash false (sub_runs is_separator false (lower (strip is_space model_id))))

-- all(... not in normalized for prohibited in PROHIBITED_MODELS)
absent_from : Text → List Text → Bool
absent_from normalized [] = true
absent_from normalized (p ∷ ps) =
    not (contains normalized (normalize_model_id p)) && absent_from normalized ps

unfoldable pub is_model_allowed : Text → Bool
unfolding absent_from
is_model_allowed model_id = absent_from (normalize_model_id model_id) prohibited_models

pub data PolicyError : Type 0 where
  prohibited_model : PolicyError

pub require_model_allowed : Text → Result PolicyError (Unit {0})
require_model_allowed model_id =
    if not (is_model_allowed model_id) then err prohibited_model else ok tt
