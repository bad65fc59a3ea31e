-- ===== src/Health/Counts.antt =====
-- What an error report counts.
use personal_ai_model.Prelude.{
  if◌then◌else◌, refl, some, [], ◌∷◌, suc, ◌≡◌, inl, inr, false, List, arith, Option-cases,
}
use personal_ai_model.Prelude.Text.{Text, ◌==◌}
use personal_ai_model.Prelude.Keyed.{find, find-replace, find-append, key-find}
use personal_ai_model.Core.{markdown_escape}
use personal_ai_model.Health.{
  Health, provider_of, entry_or_new, put, with_error, error_count_of, is_healthy,
  record_provider_error,
}

find-put :
    (h : Health) (k : Text) (entries : List Health)
    → find provider_of k (put h entries)
      ≡ (if h.provider_id == k then some h else find provider_of k entries)
unfolding put find
find-put h k entries = elim (Option-cases (find provider_of h.provider_id entries)) [
  | inl e ↦ rw (put, e) (ground (arith, find-append provider_of k entries (h ∷ []), e))
  | inr (old, e) ↦
      rw (put, e) (ground (arith, find-replace provider_of h.provider_id k h entries refl, e))
]

entry_id :
    (id : Text) (entries : List Health)
    → (entry_or_new id (find provider_of id entries)).provider_id ≡ id
unfolding entry_or_new
entry_id id entries = elim (Option-cases (find provider_of id entries)) [
  | inl e ↦ rw (e) refl
  | inr (h, e) ↦ rw (e) (key-find provider_of id entries h e)
]

module _ (provider other message now : Text) (entries : List Health) where
  -- A reported error counts one more for its provider, and nothing for any other.
  pub error_count_of-record :
      error_count_of other (record_provider_error provider message now entries) ≡ (
        if markdown_escape provider == markdown_escape other
        then suc (error_count_of other entries)
        else error_count_of other entries)
  unfolding error_count_of record_provider_error entry_or_new
  error_count_of-record =
      let id = markdown_escape provider in
      let info = entry_or_new id (find provider_of id entries) in
      ground (
        arith,
        find-put (with_error message now info) (markdown_escape other) entries,
        entry_id id entries,
      )

-- After three errors in a row a provider is not healthy.
pub three_errors_unhealthy :
    (provider a b c now : Text) (entries : List Health)
    → is_healthy provider (
        record_provider_error provider c now
          (record_provider_error provider b now (record_provider_error provider a now entries)))
      ≡ false
unfolding is_healthy
three_errors_unhealthy provider a b c now entries = ground (
  arith,
  error_count_of-record provider provider a now entries,
  error_count_of-record provider provider b now (record_provider_error provider a now entries),
  error_count_of-record provider provider c now
      (record_provider_error provider b now (record_provider_error provider a now entries)),
)
