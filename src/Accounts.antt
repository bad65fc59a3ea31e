-- ===== src/Accounts.antt =====
-- src/guardian_agent/accounts.py: the registered accounts and their browser profiles. The account files are the list
-- of their records, the profile directories the list of their names; the file system, its resolution of paths and its
-- permissions are left out. Letters and digits are those of ASCII, as the pattern of the ids has them.
pub mod Ids
pub mod Revocation
mod Tests
use personal_ai_model.Prelude.{
  ℕ, Bool, true, false, not, ◌&&◌, ◌||◌, Option, none, some, List, [], ◌∷◌, if◌then◌else◌, ltb, leb,
  nat_eq, All,
}
use personal_ai_model.Prelude.Text.{
  Text, codes, ◌==◌, strip, lower, is_space, is_empty, starts_with, contains,
}
use personal_ai_model.Prelude.Result.{Result, ok, err, ◌>>=◌, ◌>>◌, raise_if}
use personal_ai_model.Prelude.Keyed.{find, assign}
use personal_ai_model.Policy.{one_of}

pub record Account : Type 0 where
  pub id : Text
  pub service_name : Text
  pub account_label : Text
  pub vault_ref : Text
  pub allowed_domains : List Text
  pub created_at : Text
  pub session_expires_at : Option ℕ
  pub revoked : Bool

abbrev pub name_of : Account → Text
name_of a = a.id

pub data AccountError : Type 0 where
  empty_id path_characters bad_format bad_service bad_vault_ref no_domains bad_domain : AccountError
  not_registered is_revoked session_expired : AccountError

-- [a-zA-Z0-9_-]
unfoldable pub is_id_char : ℕ → Bool
is_id_char c =
    (leb b'a' c && leb c b'z')
    || (leb b'A' c && leb c b'Z')
    || (leb b'0' c && leb c b'9')
    || nat_eq c b'_'
    || nat_eq c b'-'

unfoldable pub all_id_chars : Text → Bool
unfolding is_id_char
all_id_chars [] = true
all_id_chars (c ∷ s) = is_id_char c && all_id_chars s

-- ".." in clean_id or "/" in clean_id or "\\" in clean_id or "\x00" in clean_id
unfoldable pub has_path_characters : Text → Bool
unfolding contains
has_path_characters s =
    contains s (codes "..")
    || contains s (codes "/")
    || contains s (b'\\' ∷ [])
    || contains s (0 ∷ [])

unfoldable pub validate_account_id : Text → Result AccountError Text
unfolding strip
validate_account_id id = do
  let clean_id = strip is_space id
  raise_if (is_empty clean_id) empty_id
  raise_if (has_path_characters clean_id) path_characters
  raise_if (not (all_id_chars clean_id)) bad_format
  ok clean_id

-- The account files and the profile directories.
pub record Store : Type 0 where
  pub accounts : List Account
  pub profiles : List Text

abbrev pub valid_services : List Text
valid_services = codes "canva" ∷ codes "adobe" ∷ codes "lovable" ∷ codes "custom" ∷ []

unfoldable pub is_bad_domain : Text → Bool
unfolding contains
is_bad_domain d = is_empty d || contains d (codes "/") || contains d (codes " ")

unfoldable pub clean_domains : List Text → Result AccountError (List Text)
unfolding strip is_bad_domain
clean_domains [] = ok []
clean_domains (d ∷ ds) = do
  let cd = strip is_space (lower d)
  raise_if (is_bad_domain cd) bad_domain
  rest ← clean_domains ds
  ok (cd ∷ rest)

pub record Registration : Type 0 where
  pub account_id : Text
  pub service_name : Text
  pub account_label : Text
  pub vault_ref : Text
  pub allowed_domains : List Text

abbrev pub new_account : Registration → Text → Text → List Text → Text → Account
new_account q id service domains now = record {
  id = id;
  service_name = service;
  account_label = strip is_space q.account_label;
  vault_ref = strip is_space q.vault_ref;
  allowed_domains = domains;
  created_at = now;
  session_expires_at = none;
  revoked = false;
}

-- The directory is made where it is not there.
abbrev pub with_profile : Text → List Text → List Text
with_profile id profiles = if one_of id profiles then profiles else id ∷ profiles

unfoldable pub register_account :
    Registration → Text → Store → Result AccountError (Account × Store)
register_account q now st = do
  id ← validate_account_id q.account_id
  let service = strip is_space (lower q.service_name)
  raise_if (not (one_of service valid_services)) bad_service
  raise_if
      (not (starts_with q.vault_ref (codes "vault://") || starts_with q.vault_ref (codes "vault:")))
      bad_vault_ref
  raise_if (is_empty q.allowed_domains) no_domains
  domains ← clean_domains q.allowed_domains
  let a = new_account q id service domains now
  ok (a, record { accounts = assign name_of a st.accounts; profiles = with_profile id st.profiles })

abbrev pub account_or : Option Account → Result AccountError Account
account_or none = err not_registered
account_or (some a) = ok a

-- exp and time.time() > float(exp)
abbrev pub is_past : Option ℕ → ℕ → Bool
is_past none now = false
is_past (some t) now = ltb 0 t && ltb t now

unfoldable pub get_account : Text → ℕ → Store → Result AccountError Account
get_account id now st = do
  clean_id ← validate_account_id id
  a ← account_or (find name_of clean_id st.accounts)
  raise_if a.revoked is_revoked
  raise_if (is_past a.session_expires_at now) session_expired
  ok a

-- The directory and its content are deleted.
unfoldable pub wipe_profile : Text → List Text → List Text
wipe_profile id [] = []
wipe_profile id (p ∷ ps) = let rest = wipe_profile id ps in if p == id then rest else p ∷ rest

abbrev pub as_revoked : Account → Account
as_revoked a = record a { revoked = true }

unfoldable pub revoke_account : Text → ℕ → Store → Result AccountError (Account × Store)
revoke_account id now st = do
  a ← get_account id now st
  ok (
    as_revoked a,
    record {
      accounts = assign name_of (as_revoked a) st.accounts;
      profiles = wipe_profile a.id st.profiles;
    },
  )
