-- ===== src/Execution/Artifacts.antt =====
-- The artifact paths of a result: `_safe_artifact_path`, and the check against a stage's allowed paths.
-- A resolved path is the list of its parts; `resolve` is `(root / path).resolve()` of pathlib, which
-- follows the links of the file system, and `root` the resolved project root.
use personal_ai_model.Prelude.{
  ℕ, Bool, false, not, ◌||◌, Option, none, some, List, [], ◌∷◌, ◌++◌, nat_eq, if◌then◌else◌,
}
use personal_ai_model.Prelude.Text.{Text, codes, ◌==◌, is_empty, lstrip, rstrip, starts_with}
use personal_ai_model.Prelude.Result.{Result, ok, err, ◌>>=◌, ◌>>◌, raise_if}
use personal_ai_model.Core.{markdown_escape}
use personal_ai_model.Execution.{
  ExecutionError, outside_root, protected_path, no_writable_paths, outside_allowed, attribute_error,
  or_raise,
}

-- _SENSITIVE_PATH_PARTS
abbrev pub sensitive_path_parts : List Text
sensitive_path_parts =
    codes ".env"
    ∷ codes ".agent/vault"
    ∷ codes ".agent/vault.json"
    ∷ codes ".agent/vault.lock"
    ∷ codes ".git"
    ∷ codes "node_modules"
    ∷ codes "venv"
    ∷ codes ".venv"
    ∷ []

unfoldable pub one_of : Text → List Text → Bool
one_of s [] = false
one_of s (x ∷ xs) = (x == s) || one_of s xs

unfoldable pub any_sensitive : List Text → Bool
unfolding one_of
any_sensitive [] = false
any_sensitive (part ∷ parts) = one_of part sensitive_path_parts || any_sensitive parts

-- absolute.relative_to(root)
unfoldable pub relative_to : List Text → List Text → Option (List Text)
relative_to [] parts = some parts
relative_to (r ∷ root) [] = none
relative_to (r ∷ root) (p ∷ parts) =
    let rest = relative_to root parts in if r == p then rest else none

-- str(path), of a relative path
unfoldable pub join_parts : List Text → Text
join_parts [] = codes "."
join_parts (p ∷ []) = p
join_parts (p ∷ (q ∷ parts)) = p ++ (codes "/" ++ join_parts (q ∷ parts))

abbrev pub is_slash : ℕ → Bool
is_slash c = nat_eq c b'/'

-- The artifact lies under one of the allowed paths.
unfoldable pub is_within : Text → List Text → Bool
unfolding lstrip rstrip starts_with
is_within art [] = false
is_within art (allowed ∷ rest) =
    ((lstrip is_slash art == rstrip is_slash allowed)
      || starts_with (lstrip is_slash art) (rstrip is_slash allowed ++ codes "/"))
    || is_within art rest

-- The loop over the changed artifacts; `None.lstrip` is no `GuardianError`.
unfoldable pub check_within : List Text → List (Option Text) → Result ExecutionError (List Text)
check_within allowed [] = ok []
check_within allowed (none ∷ arts) = err attribute_error
check_within allowed (some art ∷ arts) = do
  raise_if (not (is_within art allowed)) outside_allowed
  rest ← check_within allowed arts
  ok (art ∷ rest)

-- if current.artifacts_changed: if not current.allowed_paths: ...
unfoldable pub check_allowed : List (Option Text) → List Text → Result ExecutionError (List Text)
unfolding check_within
check_allowed [] allowed = ok []
check_allowed (a ∷ arts) [] = err no_writable_paths
check_allowed (a ∷ arts) (p ∷ allowed) = check_within (p ∷ allowed) (a ∷ arts)

module _ (root : List Text) (resolve : Text → List Text) where
  abbrev pub safe_clean : Text → Result ExecutionError (Option Text)
  safe_clean clean = do
    relative ← or_raise (relative_to root (resolve clean)) outside_root
    raise_if (any_sensitive (resolve clean)) protected_path
    ok (some (join_parts relative))

  unfoldable pub safe_artifact_path : Option Text → Result ExecutionError (Option Text)
  safe_artifact_path none = ok none
  safe_artifact_path (some artifact_path) =
      let clean = markdown_escape artifact_path in
      if is_empty clean then ok none else safe_clean clean

  -- [_safe_artifact_path(brain, a) for a in all_artifacts]
  unfoldable pub safe_artifact_paths : List Text → Result ExecutionError (List (Option Text))
  safe_artifact_paths [] = ok []
  safe_artifact_paths (a ∷ as') = do
    safe ← safe_artifact_path (some a)
    rest ← safe_artifact_paths as'
    ok (safe ∷ rest)

  -- What is recorded as changed: every path is safe and, if there is any, the stage may write and
  -- allows each.
  unfoldable pub validate_artifacts : List Text → List Text → Result ExecutionError (List Text)
  validate_artifacts allowed all_artifacts = do
    safe ← safe_artifact_paths all_artifacts
    check_allowed safe allowed
