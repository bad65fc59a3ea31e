-- ===== src/Execution/Paths.antt =====
-- What the checks of a result's artifact paths let through.
use personal_ai_model.Prelude.{
  ◌≡◌, refl, Bool, true, false, ◌||◌, Option, none, some, List, [], ◌∷◌, ◌++◌, arith, All,
}
use mathlib.Core.List.{Mem}
use personal_ai_model.Prelude.Text.{Text, codes, ◌==◌}
use personal_ai_model.Prelude.Result.{Result}
use personal_ai_model.Core.{markdown_escape}
use personal_ai_model.Execution.Artifacts.{
  is_slash, one_of, any_sensitive, sensitive_path_parts, join_parts, is_within,
}

unfoldable pub has_slash : Text → Bool
has_slash [] = false
has_slash (c ∷ cs) = is_slash c || has_slash cs

-- The entries of _SENSITIVE_PATH_PARTS that a part of a path can be.
abbrev pub effective_parts : List Text
effective_parts =
    codes ".env" ∷ codes ".git" ∷ codes "node_modules" ∷ codes "venv" ∷ codes ".venv" ∷ []

slash_differs : (t part : Text) → has_slash t ≡ true → has_slash part ≡ false → (t == part) ≡ false
slash_differs t part h g = ground arith

one_of-slash :
    (part : Text)
    → has_slash part ≡ false
    → one_of part effective_parts ≡ false
    → one_of part sensitive_path_parts ≡ false
unfolding one_of has_slash
one_of-slash part h e = ground (
  arith,
  slash_differs (codes ".agent/vault") part refl h,
  slash_differs (codes ".agent/vault.json") part refl h,
  slash_differs (codes ".agent/vault.lock") part refl h,
)

-- The three entries for the vault protect no path: a path none of whose parts is one of the other
-- five is let through, whatever it is.
pub any_sensitive-effective :
    (parts : List Text)
    → All (λ part. (has_slash part ≡ false) × (one_of part effective_parts ≡ false)) parts
    → any_sensitive parts ≡ false
unfolding any_sensitive
any_sensitive-effective [] h = refl
any_sensitive-effective (part ∷ parts) ((s, e), h) =
    ground (arith, one_of-slash part s e, any_sensitive-effective parts h)

-- No part is an entry of _SENSITIVE_PATH_PARTS.
abbrev pub IsUnprotected : List Text → Type 0
IsUnprotected = All λ part. one_of part sensitive_path_parts ≡ false

-- The path is that of a reported artifact, which resolves to a place below the root with no protected
-- part: what is written is the rest of that place, behind the root.
abbrev pub IsSafePath : List Text → (Text → List Text) → List Text → Text → Type 0
IsSafePath root resolve reported path =
    (given : Text) × Mem given reported
    × (relative : List Text) × (resolve (markdown_escape given) ≡ root ++ relative)
    × (path ≡ join_parts relative)
    × IsUnprotected (resolve (markdown_escape given))

-- Every recorded path is allowed and safe.
abbrev pub AllowedPath : List Text → (Text → List Text) → List Text → List Text → Text → Type 0
AllowedPath root resolve reported allowed path =
    (is_within path allowed ≡ true) × IsSafePath root resolve reported path

module _ (root : List Text) (resolve : Text → List Text) where
  abbrev SafeOption : List Text → Option Text → Type 0
  SafeOption reported none = Unit
  SafeOption reported (some path) = IsSafePath root resolve reported path
