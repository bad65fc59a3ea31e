-- ===== src/Prelude/Text.antt =====
-- Python's `str` as a list of code points, and the calls of it that the program makes.
-- `strip` and `lower` act on ASCII alone: that is what identifiers, keys and evidence texts hold.
use Prim.Native.Nat.{ℕ, ◌+◌}
use Prim.Native.Char.{code}
use Prim.Native.String.{String}
use mathlib.Core.Bool.{Bool, true, false, ◌&&◌, ◌||◌}
use mathlib.Core.List.{List, [], ◌∷◌, map}
use mathlib.Core.Option.{Option, none, some}
use mathlib.Core.Path.{◌≡◌}
use native.Mathlib.Omega.{arith}
use native.Mathlib.Decide.{ℕ_discrete}
use personal_ai_model.Prelude.Tests.{ltb, leb, nat_eq, holds, if◌then◌else◌}

abbrev pub Text : Type 0
Text = List ℕ

abbrev pub codes : String → Text
codes String.[] = []
codes (String.◌∷◌ c s) = code c ∷ codes s

unfoldable pub text_discrete : Discrete Text
unfolding ℕ_discrete
text_discrete = hlevel ℕ_discrete

unfoldable pub optional_discrete : Discrete (Option Text)
unfolding text_discrete
optional_discrete = hlevel ℕ_discrete

-- s == t
infix 50 ◌==◌
abbrev pub ◌==◌ : Text → Text → Bool
s == t = holds (text_discrete s t)

-- The same where a side may be `None`.
infix 50 ◌==?◌
abbrev pub ◌==?◌ : Option Text → Option Text → Bool
s ==? t = holds (optional_discrete s t)

abbrev pub is_empty {ℓ} : {A : Type ℓ} → List A → Bool
is_empty [] = true
is_empty (c ∷ s) = false

-- str.isspace, of an ASCII character
unfoldable pub is_space : ℕ → Bool
is_space c = (leb 9 c && leb c 13) || (leb 28 c && leb c 32)

-- s.lstrip(chars), for the set of characters that pass the test; then s.rstrip and s.strip
unfoldable pub lstrip : (ℕ → Bool) → Text → Text
lstrip p [] = []
lstrip p (c ∷ s) = if p c then lstrip p s else c ∷ s

unfoldable pub rstrip : (ℕ → Bool) → Text → Text
rstrip p [] = []
rstrip p (c ∷ s) = let rest = rstrip p s in if p c && is_empty rest then [] else c ∷ rest

unfoldable pub strip : (ℕ → Bool) → Text → Text
unfolding lstrip rstrip is_space
strip p s = rstrip p (lstrip p s)

-- s.lower()
unfoldable pub to_lower : ℕ → ℕ
to_lower c = if leb b'A' c && leb c b'Z' then c + 32 else c

abbrev pub lower : Text → Text
lower = map to_lower

-- s.startswith(t), and t in s
unfoldable pub starts_with : Text → Text → Bool
starts_with s [] = true
starts_with [] (d ∷ t) = false
starts_with (c ∷ s) (d ∷ t) = nat_eq c d && starts_with s t

unfoldable pub contains : Text → Text → Bool
unfolding starts_with
contains [] t = is_empty t
contains (c ∷ s) t = starts_with (c ∷ s) t || contains s t

-- s.replace("\x00", "")
unfoldable pub without_nul : Text → Text
without_nul [] = []
without_nul (c ∷ s) = let rest = without_nul s in if nat_eq c 0 then rest else c ∷ rest

-- bool(s), for a `str | None`
abbrev pub truthy : Option Text → Bool
truthy none = false
truthy (some []) = false
truthy (some (c ∷ s)) = true

-- s or default
abbrev pub text_or : Option Text → Text → Text
text_or none d = d
text_or (some []) d = d
text_or (some (c ∷ s)) d = c ∷ s

-- s <= t: Python compares texts by the code points, from the left.
unfoldable pub text_le : Text → Text → Bool
text_le [] t = true
text_le (c ∷ s) [] = false
text_le (c ∷ s) (d ∷ t) = ltb c d || (nat_eq c d && text_le s t)

pub ==-refl : (s : Text) → (s == s) ≡ true
==-refl s = ground arith
