-- ===== src/Runtime/Locks.antt =====
-- The named locks of runtime.py: locks.json, a dict from a resource to when it was taken.
use personal_ai_model.Prelude.{◌≡◌, ◌≢◌, Bool, true, false, List, [], ◌∷◌, arith, if◌then◌else◌}
use personal_ai_model.Prelude.Text.{Text, ◌==◌}
use personal_ai_model.Core.{markdown_escape}

unfoldable pub held : Text → List (Text × Text) → Bool
held k [] = false
held k ((j, at) ∷ locks) = if j == k then true else held k locks

-- del locks[k]
unfoldable pub without : Text → List (Text × Text) → List (Text × Text)
without k [] = []
without k ((j, at) ∷ locks) = let rest = without k locks in if j == k then rest else (j, at) ∷ rest

unfoldable pub acquire_lock : Text → Text → List (Text × Text) → Bool × List (Text × Text)
acquire_lock resource now locks =
    let clean_res = markdown_escape resource in
    if held clean_res locks then (false, locks) else (true, (clean_res, now) ∷ locks)

unfoldable pub release_lock : Text → List (Text × Text) → List (Text × Text)
release_lock resource locks = without (markdown_escape resource) locks

held-without :
    (k j : Text) (locks : List (Text × Text))
    → held j (without k locks) ≡ (if k == j then false else held j locks)
unfolding held without
held-without k j [] = ground arith
held-without k j ((i, at) ∷ locks) = ground (arith, held-without k j locks)

-- Of any number of attempts on one resource, in any spelling that normalises to it, the first alone
-- succeeds until the resource is released; the release of another resource frees nothing.
pub acquire-acquire :
    (resource other now later : Text) (locks : List (Text × Text))
    → markdown_escape other ≢ markdown_escape resource
    → (acquire_lock resource now locks).0 ≡ true
    → ((acquire_lock resource later (release_lock other (acquire_lock resource now locks).1)).0
        ≡ false)
      × ((acquire_lock resource later (release_lock resource (acquire_lock resource now locks).1)).0
          ≡ true)
unfolding acquire_lock release_lock held without
acquire-acquire resource other now later locks differ first = (
  ground (arith, held-without (markdown_escape other) (markdown_escape resource) locks),
  ground (arith, held-without (markdown_escape resource) (markdown_escape resource) locks),
)
