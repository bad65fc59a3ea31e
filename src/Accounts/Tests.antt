-- ===== src/Accounts/Tests.antt =====
-- An account of Canva, and its revocation.
use personal_ai_model.Prelude.{◌≡◌, refl, All, none, [], ◌∷◌, false}
use personal_ai_model.Prelude.Text.{codes, strip, text_discrete, is_empty, contains, starts_with}
use personal_ai_model.Prelude.Result.{ok, err}
use personal_ai_model.Prelude.Keyed.{find, assign, replace}
use personal_ai_model.Accounts.{
  Account, Store, validate_account_id, get_account, revoke_account, as_revoked, is_revoked,
  all_id_chars, is_id_char, has_path_characters, wipe_profile,
}
use personal_ai_model.Accounts.Ids.{IsPlain, validate_account_id-IsPlain}
use personal_ai_model.Accounts.Revocation.{revoke_call, run, get_account-revoked}

abbrev account : Account
account = record {
  id = codes "acct_1";
  service_name = codes "canva";
  account_label = codes "Design";
  vault_ref = codes "vault://canva";
  allowed_domains = codes "canva.com" ∷ [];
  created_at = codes "t0";
  session_expires_at = none;
  revoked = false;
}

abbrev store : Store
store = record { accounts = account ∷ []; profiles = codes "acct_1" ∷ [] }

abbrev emptied : Store
emptied = record { accounts = as_revoked account ∷ []; profiles = [] }

valid_id : validate_account_id (codes " acct_1 ") ≡ ok (codes "acct_1")
unfolding validate_account_id strip has_path_characters contains starts_with all_id_chars is_id_char
valid_id = refl

revoked_now : revoke_account (codes "acct_1") 5 store ≡ ok (as_revoked account, emptied)
unfolding revoke_account get_account validate_account_id strip has_path_characters contains
    starts_with all_id_chars is_id_char find assign replace wipe_profile text_discrete
revoked_now = refl

validate_account_id-IsPlain_example :
    (is_empty (codes "acct_1") ≡ false) × All IsPlain (codes "acct_1")
validate_account_id-IsPlain_example =
    validate_account_id-IsPlain (codes " acct_1 ") (codes "acct_1") valid_id

get_account-revoked_example :
    get_account (codes "acct_1") 9 (run (revoke_call (codes "acct_1") 6 ∷ []) emptied)
    ≡ err is_revoked
get_account-revoked_example =
    get_account-revoked (codes "acct_1") 5 9 store (as_revoked account, emptied)
      (revoke_call (codes "acct_1") 6 ∷ []) revoked_now (tt, tt)
