-- ===== src/Prelude/Keyed.antt =====
-- Records found in a list by a key: `next((x for x in xs if x["id"] == k), None)`, and the
-- assignment through what it finds. A later record with the same key is never seen.
use mathlib.Core.List.{List, [], ◌∷◌, ◌++◌, map}
use mathlib.Core.Option.{Option, none, some}
use mathlib.Core.Path.{◌≡◌, refl}
use native.Mathlib.Omega.{arith}
use mathlib.Core.Logic.{inl, inr}
use personal_ai_model.Prelude.Tests.{if◌then◌else◌, Option-cases}
use personal_ai_model.Prelude.Text.{Text, ◌==◌}

module _ {ℓ} {A : Type ℓ} (key : A → Text) where
  unfoldable pub find : Text → List A → Option A
  find k [] = none
  find k (x ∷ xs) = if key x == k then some x else find k xs

  unfoldable pub replace : Text → A → List A → List A
  replace k v [] = []
  replace k v (x ∷ xs) = if key x == k then v ∷ xs else x ∷ replace k v xs

  -- The record that a lookup gives after another one was written at the end.
  abbrev pub or_else : Option A → Option A → Option A
  or_else none o = o
  or_else (some a) o = some a

  -- Nothing is written where nothing was found.
  abbrev pub written : A → Option A → Option A
  written v none = none
  written v (some _) = some v

  pub key-find : (k : Text) (xs : List A) (a : A) → find k xs ≡ some a → key a ≡ k
  unfolding find
  key-find k [] a e = cc
  key-find k (x ∷ xs) a e = ground (arith, key-find k xs a)

  pub find-replace :
      (k j : Text) (v : A) (xs : List A)
      → key v ≡ k
      → find j (replace k v xs) ≡ (if k == j then written v (find j xs) else find j xs)
  unfolding find replace
  find-replace k j v [] e = ground arith
  find-replace k j v (x ∷ xs) e = ground (arith, find-replace k j v xs e)

  pub find-append :
      (j : Text) (xs ys : List A) → find j (xs ++ ys) ≡ or_else (find j xs) (find j ys)
  unfolding find
  find-append j [] ys = refl
  find-append j (x ∷ xs) ys = ground (arith, find-append j xs ys)

  -- A change of every record that keeps the keys.
  abbrev pub applied : (A → A) → Option A → Option A
  applied f none = none
  applied f (some a) = some (f a)

  pub find-map :
      (f : A → A)
      → ((a : A) → key (f a) ≡ key a)
      → (j : Text) (xs : List A) → find j (map f xs) ≡ applied f (find j xs)
  unfolding find
  find-map f keeps j [] = refl
  find-map f keeps j (x ∷ xs) = rw (keeps x) (ground (arith, find-map f keeps j xs))

  -- xs[key] = v, of a dict in the order of its keys.
  unfoldable pub assign : A → List A → List A
  assign v xs = elim (find (key v) xs) [ none ↦ xs ++ v ∷ [] | some _ ↦ replace (key v) v xs ]

  pub find-assign :
      (k : Text) (v : A) (xs : List A)
      → find k (assign v xs) ≡ (if key v == k then some v else find k xs)
  unfolding assign find
  find-assign k v xs = elim (Option-cases (find (key v) xs)) [
    | inl e ↦ rw (assign, e) (ground (arith, find-append k xs (v ∷ []), e))
    | inr (old, e) ↦ rw (assign, e) (ground (arith, find-replace (key v) k v xs refl, e))
  ]

  -- xs.pop(key, None), of a dict: the others, in their order.
  unfoldable pub remove : Text → List A → List A
  remove k [] = []
  remove k (x ∷ xs) = if key x == k then xs else x ∷ remove k xs
