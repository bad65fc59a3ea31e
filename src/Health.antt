-- ===== src/Health.antt =====
-- src/guardian_agent/health.py: error counts of the providers. The file is the list of its entries;
-- the journal is not modelled.
pub mod Counts
mod Tests
use personal_ai_model.Prelude.{
  ℕ, suc, Bool, true, Option, none, some, List, [], ◌∷◌, ◌++◌, ltb, ◌≡◌, refl, ◌≤◌, arith, ◌<◌,
  if◌then◌else◌, Option-cases, inl, inr,
}
use personal_ai_model.Prelude.Text.{Text, ◌==◌}
use personal_ai_model.Prelude.Keyed.{
  find, replace, find-replace, find-append, written, or_else, key-find,
}
use personal_ai_model.Core.{markdown_escape}

pub record Health : Type 0 where
  pub provider_id : Text
  pub error_count : ℕ
  pub last_error : Option Text
  pub healthy : Bool
  pub updated_at : Option Text

abbrev pub provider_of : Health → Text
provider_of h = h.provider_id

-- data.get(clean_id, {"error_count": 0, "last_error": None, "healthy": True})
unfoldable pub entry_or_new : Text → Option Health → Health
entry_or_new id none = record {
  provider_id = id;
  error_count = 0;
  last_error = none;
  healthy = true;
  updated_at = none;
}
entry_or_new id (some h) = h

-- data[clean_id] = info
unfoldable pub put : Health → List Health → List Health
put h data_entries = elim (find provider_of h.provider_id data_entries) [
  | none ↦ data_entries ++ h ∷ []
  | some old ↦ replace provider_of h.provider_id h data_entries
]

unfoldable pub error_count_of : Text → List Health → ℕ
error_count_of provider entries =
    let id = markdown_escape provider in (entry_or_new id (find provider_of id entries)).error_count

-- check_provider_health(...)["healthy"]
unfoldable pub is_healthy : Text → List Health → Bool
is_healthy provider entries = ltb (error_count_of provider entries) 3

abbrev pub with_error : Text → Text → Health → Health
with_error message now info = record info {
  error_count = suc info.error_count;
  last_error = some (markdown_escape message);
  healthy = ltb (suc info.error_count) 3;
  updated_at = some now;
}

unfoldable pub record_provider_error : Text → Text → Text → List Health → List Health
record_provider_error provider message now entries =
    let id = markdown_escape provider in
    put (with_error message now (entry_or_new id (find provider_of id entries))) entries

unfoldable pub record_provider_success : Text → Text → List Health → List Health
record_provider_success provider now entries =
    let id = markdown_escape provider in
    elim (find provider_of id entries) [
      | none ↦ entries
      | some info ↦
          replace provider_of id
            (record info { error_count = 0; healthy = true; updated_at = some now }) entries
    ]
