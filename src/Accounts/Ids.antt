-- ===== src/Accounts/Ids.antt =====
-- The ids under which files and directories are named.
use personal_ai_model.Prelude.{ℕ, ◌≡◌, ◌≢◌, sym, true, false, not, [], ◌∷◌, arith, All}
use personal_ai_model.Prelude.Text.{Text, strip, is_space, is_empty}
use personal_ai_model.Prelude.Result.{ok, >>=-ok, raise_if, ok-injective}
use personal_ai_model.Accounts.{
  is_id_char, all_id_chars, has_path_characters, validate_account_id, empty_id, path_characters,
  bad_format,
}

-- A character that has no meaning in a path: no separator, no dot and no NUL.
abbrev pub IsPlain : ℕ → Type 0
IsPlain c = (c ≢ b'/') × (c ≢ b'\\') × (c ≢ b'.') × (c ≢ 0)

is_id_char-IsPlain : (c : ℕ) → is_id_char c ≡ true → IsPlain c
unfolding is_id_char
is_id_char-IsPlain c h =
    (λ e. ground arith, λ e. ground arith, λ e. ground arith, λ e. ground arith)

all_id_chars-IsPlain : (s : Text) → all_id_chars s ≡ true → All IsPlain s
unfolding all_id_chars
all_id_chars-IsPlain [] h = tt
all_id_chars-IsPlain (c ∷ s) h =
    (is_id_char-IsPlain c (ground arith), all_id_chars-IsPlain s (ground arith))

-- What an id that is accepted has passed.
pub validate_account_id-checks :
    (id clean : Text)
    → validate_account_id id ≡ ok clean
    → (strip is_space id ≡ clean) × (is_empty clean ≡ false) × (all_id_chars clean ≡ true)
unfolding validate_account_id
validate_account_id-checks id clean h =
    let (u, full, g) = >>=-ok (raise_if (is_empty (strip is_space id)) empty_id) _ h in
    let (v, safe, k) =
      >>=-ok (raise_if (has_path_characters (strip is_space id)) path_characters) _ g in
    let (w, plain, e) = >>=-ok (raise_if (not (all_id_chars (strip is_space id))) bad_format) _ k in
    let same = ok-injective e in
    (same, rw (sym same) (ground (arith, full)), rw (sym same) (ground (arith, plain)))

-- An account id that is accepted is one name: it is not empty and has no character that a path reads, so that
-- what is named by it stands in its own directory.
pub validate_account_id-IsPlain :
    (id clean : Text)
    → validate_account_id id ≡ ok clean
    → (is_empty clean ≡ false) × All IsPlain clean
validate_account_id-IsPlain id clean h =
    let checks = validate_account_id-checks id clean h in
    (checks.1, all_id_chars-IsPlain clean checks.2)
