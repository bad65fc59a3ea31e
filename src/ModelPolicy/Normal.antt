-- ===== src/ModelPolicy/Normal.antt =====
-- `normalize_model_id` writes a name as lower-case words joined by single dashes.
use personal_ai_model.Prelude.{
  ℕ, ◌≡◌, refl, ap, ap₂, Bool, true, false, not, [], ◌∷◌, ◌⊎◌, inl, inr, arith, Bool-cases,
}
use personal_ai_model.Prelude.Text.{
  Text, lstrip, rstrip, strip, lower, to_lower, is_space, is_empty,
}
use personal_ai_model.ModelPolicy.{
  dash, is_alnum, is_dash, is_separator, sub_runs, normalize_model_id,
}

-- Words of letters and digits, one dash between two of them; `inside` says that a word is open.
abbrev pub Words : Bool → Text → Type 0
Words inside [] = inside ≡ true
Words inside (c ∷ s) =
    ((is_alnum c ≡ true) × Words true s) ⊎ ((c ≡ dash) × (inside ≡ true) × Words false s)

abbrev pub IsNormal : Text → Type 0
IsNormal s = (s ≡ []) ⊎ Words false s

-- What one substitution leaves: letters, digits, and no two dashes in a row.
abbrev Spaced : Bool → Text → Type 0
Spaced open_run [] = Unit
Spaced open_run (c ∷ s) =
    ((is_alnum c ≡ true) × Spaced false s) ⊎ ((c ≡ dash) × (open_run ≡ false) × Spaced true s)

sub_runs-Spaced : (b : Bool) (s : Text) → Spaced b (sub_runs is_separator b s)
unfolding sub_runs
sub_runs-Spaced b [] = tt
sub_runs-Spaced true (c ∷ s) = elim (Bool-cases (is_alnum c)) [
  | inl e ↦ rw e (inl (e, rw e at (sub_runs-Spaced (is_separator c) s)))
  | inr e ↦ rw e (rw e at (sub_runs-Spaced (is_separator c) s))
]
sub_runs-Spaced false (c ∷ s) = elim (Bool-cases (is_alnum c)) [
  | inl e ↦ rw e (inl (e, rw e at (sub_runs-Spaced (is_separator c) s)))
  | inr e ↦ rw e (inr (refl, refl, rw e at (sub_runs-Spaced (is_separator c) s)))
]

dash_not_alnum : is_alnum dash ≡ false
unfolding is_alnum
dash_not_alnum = refl

alnum_not_dash : (c : ℕ) → is_alnum c ≡ true → is_dash c ≡ false
unfolding is_alnum
alnum_not_dash c h = ground arith

-- The second substitution has nothing left to do.
sub_runs-Spaced_id : (b : Bool) (s : Text) → Spaced b s → sub_runs is_dash b s ≡ s
unfolding sub_runs
sub_runs-Spaced_id b [] h = refl
sub_runs-Spaced_id b (c ∷ s) (inl (e, rest)) =
    rw (alnum_not_dash c e) (ap (◌∷◌ c) (sub_runs-Spaced_id false s rest))
sub_runs-Spaced_id b (c ∷ s) (inr (e, f, rest)) =
    rw (e, f) (ap (◌∷◌ dash) (sub_runs-Spaced_id true s rest))

Words-is_empty : (s : Text) → Words false s → is_empty s ≡ false
Words-is_empty [] h = cc
Words-is_empty (c ∷ s) h = refl

-- Nothing is open at the end of a spaced text but a single dash, which `strip` takes.
rstrip-Spaced :
    (b : Bool) (s : Text) → Spaced b s → Words (not b) (rstrip is_dash s) ⊎ (rstrip is_dash s ≡ [])
unfolding rstrip
rstrip-Spaced b [] h = inr refl
rstrip-Spaced b (c ∷ s) (inl (e, rest)) = elim (rstrip-Spaced false s rest) [
  | inl w ↦ inl (rw (alnum_not_dash c e) (inl (e, w)))
  | inr n ↦ inl (rw (alnum_not_dash c e, n) (inl (e, refl)))
]
rstrip-Spaced b (c ∷ s) (inr (e, f, rest)) = elim (rstrip-Spaced true s rest) [
  | inl w ↦ inl (rw (e, f, Words-is_empty (rstrip is_dash s) w) (inr (refl, refl, w)))
  | inr n ↦ inr (rw (e, n))
]

lstrip-Spaced : (b : Bool) (s : Text) → Spaced b s → Spaced true (lstrip is_dash s)
unfolding lstrip
lstrip-Spaced b [] h = tt
lstrip-Spaced b (c ∷ s) (inl (e, rest)) = rw (alnum_not_dash c e) (inl (e, rest))
lstrip-Spaced b (c ∷ s) (inr (e, f, rest)) = rw e (lstrip-Spaced true s rest)

-- Whatever the name, the normal form is empty or made of words of letters and digits that single dashes join.
pub normalize_model_id-IsNormal : (model_id : Text) → IsNormal (normalize_model_id model_id)
unfolding normalize_model_id strip
normalize_model_id-IsNormal model_id =
    rw (sub_runs-Spaced_id false _ spaced)
      (swapped (rstrip-Spaced true _ (lstrip-Spaced false _ spaced)))
  where
    spaced : Spaced false (sub_runs is_separator false (lower (strip is_space model_id)))
    spaced = sub_runs-Spaced false (lower (strip is_space model_id))

    swapped : {s : Text} → Words false s ⊎ (s ≡ []) → IsNormal s
    swapped (inl w) = inr w
    swapped (inr e) = inl e

module _ (p : ℕ → Bool) (keeps : (c : ℕ) → is_alnum c ≡ true → p c ≡ false) where
  rstrip-Words_id : (b : Bool) (s : Text) → Words b s → rstrip p s ≡ s
  unfolding rstrip
  rstrip-Words_id b [] h = refl
  rstrip-Words_id b (c ∷ s) (inl (e, rest)) =
      rw (keeps c e) (ap (◌∷◌ c) (rstrip-Words_id true s rest))
  rstrip-Words_id b (c ∷ s) (inr (e, f, rest)) =
      rw (rstrip-Words_id false s rest, Words-is_empty s rest) (ground arith)

  lstrip-Words_id : (s : Text) → Words false s → lstrip p s ≡ s
  unfolding lstrip
  lstrip-Words_id [] h = refl
  lstrip-Words_id (c ∷ s) (inl (e, rest)) = rw (keeps c e)
  lstrip-Words_id (c ∷ s) (inr (e, f, rest)) = cc

alnum_not_space : (c : ℕ) → is_alnum c ≡ true → is_space c ≡ false
unfolding is_alnum is_space
alnum_not_space c h = ground arith

to_lower-alnum : (c : ℕ) → is_alnum c ≡ true → to_lower c ≡ c
unfolding is_alnum to_lower
to_lower-alnum c h = ground arith

lower-Words_id : (b : Bool) (s : Text) → Words b s → lower s ≡ s
unfolding to_lower
lower-Words_id b [] h = refl
lower-Words_id b (c ∷ s) (inl (e, rest)) = ap₂ ◌∷◌ (to_lower-alnum c e) (lower-Words_id true s rest)
lower-Words_id b (c ∷ s) (inr (e, f, rest)) = rw e (ap (◌∷◌ dash) (lower-Words_id false s rest))

-- Where a word is open, no run is.
abbrev Apart : Bool → Bool → Type 0
Apart r b = b ≡ true → r ≡ false

sub_runs-Words_id : (b r : Bool) (s : Text) → Apart r b → Words b s → sub_runs is_separator r s ≡ s
unfolding sub_runs
sub_runs-Words_id b r [] a h = refl
sub_runs-Words_id b r (c ∷ s) a (inl (e, rest)) =
    rw e (ap (◌∷◌ c) (sub_runs-Words_id true false s (λ _. refl) rest))
sub_runs-Words_id b r (c ∷ s) a (inr (e, f, rest)) =
    rw (e, a f, dash_not_alnum) (ap (◌∷◌ dash) (sub_runs-Words_id false true s (λ x. cc) rest))

Words-Spaced : (b r : Bool) (s : Text) → Apart r b → Words b s → Spaced r s
Words-Spaced b r [] a h = tt
Words-Spaced b r (c ∷ s) a (inl (e, rest)) = inl (e, Words-Spaced true false s (λ _. refl) rest)
Words-Spaced b r (c ∷ s) a (inr (e, f, rest)) =
    inr (e, a f, Words-Spaced false true s (λ x. cc) rest)

normalize_model_id-IsNormal_id : (s : Text) → IsNormal s → normalize_model_id s ≡ s
unfolding normalize_model_id
normalize_model_id-IsNormal_id s (inl e) = rw e
normalize_model_id-IsNormal_id s (inr h) = rw (
  lstrip-Words_id is_space alnum_not_space s h,
  rstrip-Words_id is_space alnum_not_space false s h,
  lower-Words_id false s h,
  sub_runs-Words_id false false s (λ x. refl) h,
  sub_runs-Spaced_id false s (Words-Spaced false false s (λ x. refl) h),
  lstrip-Words_id is_dash alnum_not_dash s h,
  rstrip-Words_id is_dash alnum_not_dash false s h,
)

-- A second normalisation changes nothing.
pub normalize_model_id_idem :
    (model_id : Text)
    → normalize_model_id (normalize_model_id model_id) ≡ normalize_model_id model_id
normalize_model_id_idem model_id =
    normalize_model_id-IsNormal_id _ (normalize_model_id-IsNormal model_id)
