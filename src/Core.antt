-- ===== src/Core.antt =====
-- src/guardian_agent/core.py: the normalisation that every text from a caller goes through.
use personal_ai_model.Prelude.Text.{Text, strip, is_space, without_nul}

-- value.strip().replace("\x00", "")
unfoldable pub markdown_escape : Text → Text
unfolding strip without_nul
markdown_escape value = without_nul (strip is_space value)
