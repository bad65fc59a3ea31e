-- ===== src/ModelPolicy/Refusal.antt =====
-- What the deny list refuses: a prohibited name in any company.
use mathlib.Core.List.{map-append, append_assoc}
use personal_ai_model.Prelude.{ℕ, ◌≡◌, refl, sym, ap, ◌∙◌, Bool, true, false, [], ◌∷◌, ◌++◌, arith}
use personal_ai_model.Prelude.Text.{
  Text, codes, lstrip, rstrip, strip, lower, to_lower, is_space, is_empty, starts_with, contains,
}
use personal_ai_model.ModelPolicy.{
  is_alnum, is_dash, is_separator, sub_runs, normalize_model_id, is_model_allowed,
}

abbrev phrase : Text
phrase = codes "claude-sonnet-4.6"

abbrev slug : Text
slug = codes "claude-sonnet-4-6"

-- `t` stands somewhere in `s`.
abbrev Has : Text → Text → Type 0
Has t s = (a : Text) × (b : Text) × (s ≡ a ++ (t ++ b))

starts_with-append : (t b : Text) → starts_with (t ++ b) t ≡ true
unfolding starts_with
starts_with-append [] [] = refl
starts_with-append [] (c ∷ b) = refl
starts_with-append (c ∷ t) b = ground (arith, starts_with-append t b)

contains-middle : (a t b : Text) → contains (a ++ (t ++ b)) t ≡ true
unfolding contains
contains-middle [] [] [] = refl
contains-middle [] [] (c ∷ b) = refl
contains-middle [] (c ∷ t) b = ground (arith, starts_with-append (c ∷ t) b)
contains-middle (c ∷ a) t b = ground (arith, contains-middle a t b)

regroup :
    (l : Text) (x : ℕ) (u : Text) (y : ℕ) (b : Text)
    → l ++ x ∷ ((u ++ y ∷ []) ++ b) ≡ (l ++ x ∷ u) ++ y ∷ b
regroup l x u y b = simp append_assoc

module _ (p : ℕ → Bool) where
  -- Characters that stay shield what stands behind them from `lstrip` and before them from `rstrip`.
  lstrip-shielded :
      (a : Text) (x : ℕ) (s : Text) → p x ≡ false → lstrip p (a ++ x ∷ s) ≡ lstrip p a ++ x ∷ s
  unfolding lstrip
  lstrip-shielded [] x s h = rw h
  lstrip-shielded (c ∷ a) x s h = ground (arith, lstrip-shielded a x s h)

  is_empty-append : (a : Text) (y : ℕ) (s : Text) → is_empty (a ++ y ∷ s) ≡ false
  is_empty-append [] y s = refl
  is_empty-append (c ∷ a) y s = refl

  rstrip-shielded :
      (a : Text) (y : ℕ) (s : Text) → p y ≡ false → rstrip p (a ++ y ∷ s) ≡ a ++ y ∷ rstrip p s
  unfolding rstrip
  rstrip-shielded [] y s h = rw h
  rstrip-shielded (c ∷ a) y s h =
      rw (rstrip-shielded a y s h, is_empty-append a y (rstrip p s)) (ground arith)

  -- A text that starts and ends with characters that stay survives `strip`.
  strip-Has :
      (x : ℕ) (u : Text) (y : ℕ) (s : Text)
      → p x ≡ false
      → p y ≡ false
      → Has (x ∷ (u ++ y ∷ [])) s
      → Has (x ∷ (u ++ y ∷ [])) (strip p s)
  unfolding strip
  strip-Has x u y s hx hy (a, b, e) = (
    lstrip p a,
    rstrip p b,
    rw (e, lstrip-shielded a x ((u ++ y ∷ []) ++ b) hx, regroup (lstrip p a) x u y b)
        (rw (rstrip-shielded (lstrip p a ++ x ∷ u) y b hy)
          (sym (regroup (lstrip p a) x u y (rstrip p b)))),
  )

  -- `re.sub` works through what stands before a text, and starts on the text with some run open or not.
  run_after : Bool → Text → Bool
  run_after inside [] = inside
  run_after inside (c ∷ s) = run_after (p c) s

  sub_runs-append :
      (inside : Bool) (a s : Text)
      → sub_runs p inside (a ++ s) ≡ sub_runs p inside a ++ sub_runs p (run_after inside a) s
  unfolding sub_runs run_after
  sub_runs-append inside [] s = refl
  sub_runs-append inside (c ∷ a) s = ground (arith, sub_runs-append (p c) a s)

sub_runs-phrase :
    (inside : Bool) (s : Text)
    → sub_runs is_separator inside (phrase ++ s) ≡ slug ++ sub_runs is_separator false s
unfolding sub_runs is_alnum
sub_runs-phrase inside s = refl

sub_runs-slug :
    (inside : Bool) (s : Text)
    → sub_runs is_dash inside (slug ++ s) ≡ slug ++ sub_runs is_dash false s
unfolding sub_runs is_alnum
sub_runs-slug inside s = refl

sub_runs-Has-phrase : (s : Text) → Has phrase s → Has slug (sub_runs is_separator false s)
sub_runs-Has-phrase s (a, b, e) = (
  sub_runs is_separator false a,
  sub_runs is_separator false b,
  rw e (
      sub_runs-append is_separator false a (phrase ++ b)
      ∙ ap (◌++◌ (sub_runs is_separator false a))
          (sub_runs-phrase (run_after is_separator false a) b)),
)

sub_runs-Has-slug : (s : Text) → Has slug s → Has slug (sub_runs is_dash false s)
sub_runs-Has-slug s (a, b, e) = (
  sub_runs is_dash false a,
  sub_runs is_dash false b,
  rw e (
      sub_runs-append is_dash false a (slug ++ b)
      ∙ ap (◌++◌ (sub_runs is_dash false a)) (sub_runs-slug (run_after is_dash false a) b)),
)

-- `lower` and the stripping of blanks can trade places.
is_space-to_lower : (c : ℕ) → is_space (to_lower c) ≡ is_space c
unfolding is_space to_lower
is_space-to_lower c = ground arith

is_empty-lower : (s : Text) → is_empty (lower s) ≡ is_empty s
is_empty-lower [] = refl
is_empty-lower (c ∷ s) = refl

lower-lstrip : (s : Text) → lower (lstrip is_space s) ≡ lstrip is_space (lower s)
unfolding lstrip
lower-lstrip [] = refl
lower-lstrip (c ∷ s) = rw (is_space-to_lower c) (ground (arith, lower-lstrip s))

lower-rstrip : (s : Text) → lower (rstrip is_space s) ≡ rstrip is_space (lower s)
unfolding rstrip
lower-rstrip [] = refl
lower-rstrip (c ∷ s) =
    rw (is_space-to_lower c, ← lower-rstrip s, is_empty-lower (rstrip is_space s)) (ground arith)

lower-strip : (s : Text) → lower (strip is_space s) ≡ strip is_space (lower s)
unfolding strip
lower-strip s = lower-rstrip (lstrip is_space s) ∙ ap (rstrip is_space) (lower-lstrip s)

lower-Has :
    (before name after : Text)
    → lower name ≡ phrase
    → Has phrase (lower (before ++ (name ++ after)))
lower-Has before name after e = (lower before, lower after, rw (map-append, map-append, e))

normalize_model_id-Has :
    (before name after : Text)
    → lower name ≡ phrase
    → Has slug (normalize_model_id (before ++ (name ++ after)))
unfolding normalize_model_id is_space is_alnum
normalize_model_id-Has before name after e =
    let model_id = before ++ (name ++ after) in
    let blanks : Has phrase (lower (strip is_space model_id)) = rw (lower-strip model_id) (
      strip-Has is_space b'c' (codes "laude-sonnet-4.") b'6' _ refl refl
        (lower-Has before name after e)) in
    strip-Has is_dash b'c' (codes "laude-sonnet-4-") b'6' _ refl refl
      (sub_runs-Has-slug _ (sub_runs-Has-phrase _ blanks))

normalize_model_id-phrase : normalize_model_id phrase ≡ slug
unfolding normalize_model_id
normalize_model_id-phrase = refl

-- Whatever is written before or after it, in any mixture of cases, the prohibited name is refused.
pub is_model_allowed-prohibited :
    (before name after : Text)
    → lower name ≡ codes "claude-sonnet-4.6"
    → is_model_allowed (before ++ (name ++ after)) ≡ false
unfolding is_model_allowed
is_model_allowed-prohibited before name after e =
    let (a, b, h) = normalize_model_id-Has before name after e in
    rw (h, normalize_model_id-phrase, contains-middle a slug b)
