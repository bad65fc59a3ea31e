-- ===== src/ModelPolicy/Tests.antt =====
-- Names that the deny list meets.
use personal_ai_model.Prelude.{◌≡◌, refl, true, false, ◌++◌}
use personal_ai_model.Prelude.Text.{codes, contains, lower, to_lower}
use personal_ai_model.ModelPolicy.{normalize_model_id, is_model_allowed}
use personal_ai_model.ModelPolicy.Refusal.{is_model_allowed-prohibited}

refused : is_model_allowed (codes " OmniRoute/Claude  Sonnet_4.6 ") ≡ false
unfolding is_model_allowed normalize_model_id contains
refused = refl

allowed_sibling : is_model_allowed (codes "claude-sonnet-4.5") ≡ true
unfolding is_model_allowed normalize_model_id contains
allowed_sibling = refl

lowered : lower (codes "Claude-SONNET-4.6") ≡ codes "claude-sonnet-4.6"
unfolding to_lower
lowered = refl

is_model_allowed-prohibited_example :
    is_model_allowed (codes "openrouter/" ++ (codes "Claude-SONNET-4.6" ++ codes ":beta")) ≡ false
is_model_allowed-prohibited_example =
    is_model_allowed-prohibited (codes "openrouter/") (codes "Claude-SONNET-4.6") (codes ":beta")
      lowered
