-- ===== src/Orchestration/Preview.antt =====
-- The routes that the preview of `orchestrate_start` shows, of those that `list_routes_for_task` lists: it
-- leaves out the prohibited models, but not the unhealthy providers.
use personal_ai_model.Prelude.{
  ℕ, zero, suc, ◌≤◌, ◌≡◌, refl, Bool, true, false, not, ◌&&◌, ◌||◌, List, [], ◌∷◌, ◌++◌, arith, inl,
  inr, if◌then◌else◌, length, take, Bool-cases, length-append, ap,
}
use personal_ai_model.Prelude.Text.{Text, codes, ◌==◌, ==-refl}
use personal_ai_model.ModelPolicy.{is_model_allowed}
use personal_ai_model.Health.{Health, is_healthy}

pub record Listed : Type 0 where
  pub provider : Text
  pub model : Text
  pub cost_tier : Text
  pub usage_tier : Text
  pub usage_class : Text

-- _is_final_review_route
abbrev pub is_final_review_route : Listed → Bool
is_final_review_route r =
    r.usage_tier == codes "final-review"
    || r.usage_class == codes "final-review"
    || r.provider == codes "manual"

-- is_model_allowed(...) and check_provider_health(...)["healthy"]
abbrev pub is_usable : List Health → Listed → Bool
is_usable health r = is_model_allowed r.model && is_healthy r.provider health

abbrev pub is_local_route : List Health → Listed → Bool
is_local_route health r =
    (r.provider == codes "local-ollama" || r.cost_tier == codes "local") && is_usable health r

abbrev pub is_free_route : List Health → Listed → Bool
is_free_route health r =
    (r.cost_tier == codes "free" || r.cost_tier == codes "free-limited") && is_usable health r

-- A route of neither list, that is no final review and is not paid.
abbrev pub is_fallback_route : List Health → Listed → Bool
is_fallback_route health r =
    not (is_local_route health r)
    && not (is_free_route health r)
    && not (is_final_review_route r)
    && not (r.cost_tier == codes "paid")

unfoldable pub keep_routes : (Listed → Bool) → List Listed → List Listed
keep_routes test [] = []
keep_routes test (r ∷ rs) = let rest = keep_routes test rs in if test r then r ∷ rest else rest

abbrev pub max_preview_routes : ℕ
max_preview_routes = 5

-- The last place is the final review's, if there is one.
abbrev pub with_final : List Listed → List Listed → List Listed
with_final working [] = take max_preview_routes working
with_final working (f ∷ fs) = take 4 working ++ f ∷ []

abbrev pub same_route : Listed → Listed → Bool
same_route a b = (a.provider == b.provider) && (a.model == b.model)

unfoldable pub is_seen : Listed → List Listed → Bool
is_seen r [] = false
is_seen r (s ∷ seen) = same_route s r || is_seen r seen

-- Each provider and model once, at its first place.
unfoldable pub deduped : List Listed → List Listed → List Listed
unfolding is_seen
deduped seen [] = []
deduped seen (r ∷ rs) =
    let rest = deduped seen rs in
    let kept = deduped (r ∷ seen) rs in if is_seen r seen then rest else r ∷ kept

unfoldable pub preview_routes : List Health → List Listed → List Listed
unfolding keep_routes deduped
preview_routes health routes =
    let working =
      keep_routes (is_local_route health) routes
      ++ (keep_routes (is_free_route health) routes
          ++ keep_routes (is_fallback_route health) routes) in
    let final = keep_routes (λ r. is_final_review_route r && is_usable health r) routes in
    deduped [] (with_final working final)

length-deduped : (seen rs : List Listed) → length (deduped seen rs) ≤ length rs
unfolding deduped
length-deduped seen [] = omega arith
length-deduped seen (r ∷ rs) = elim (Bool-cases (is_seen r seen)) [
  | inl e ↦ rw (e) (omega (arith, length-deduped seen rs))
  | inr e ↦ rw (e) (omega (arith, length-deduped (r ∷ seen) rs))
]

length-take : {A : Type 0} (n : ℕ) (xs : List A) → length (take n xs) ≤ n
length-take zero xs = omega arith
length-take (suc n) [] = omega arith
length-take (suc n) (x ∷ xs) = omega (arith, length-take n xs)

length-with_final : (working final : List Listed) → length (with_final working final) ≤ 5
length-with_final working [] = length-take 5 working
length-with_final working (f ∷ fs) =
    omega (arith, length-take 4 working, length-append (take 4 working) (f ∷ []))

-- The preview shows at most five routes.
pub length-preview_routes :
    (health : List Health) (routes : List Listed) → length (preview_routes health routes) ≤ 5
unfolding preview_routes
length-preview_routes health routes = omega (arith, length-deduped [] _, length-with_final _ _)

is_seen-append :
    (r : Listed) (as' bs : List Listed) → is_seen r (as' ++ bs) ≡ (is_seen r as' || is_seen r bs)
unfolding is_seen
is_seen-append r [] bs = refl
is_seen-append r (a ∷ as') bs = ground (arith, is_seen-append r as' bs)

-- A route that passes the test is kept, wherever it stands.
is_seen-keep_routes :
    (test : Listed → Bool) (r : Listed) (before after : List Listed)
    → test r ≡ true
    → is_seen r (keep_routes test (before ++ r ∷ after)) ≡ true
unfolding is_seen keep_routes
is_seen-keep_routes test r [] after h = rw (h, ==-refl r.provider, ==-refl r.model) refl
is_seen-keep_routes test r (b ∷ before) after h =
    ground (arith, is_seen-keep_routes test r before after h)

is_seen-same :
    (a r : Listed) (seen : List Listed) → same_route a r ≡ true → is_seen a seen ≡ is_seen r seen
unfolding is_seen
is_seen-same a r [] h = refl
is_seen-same a r (s ∷ seen) h = ground (arith, is_seen-same a r seen h)

-- What is left out as a repetition has been seen.
is_seen-deduped :
    (r : Listed) (seen rs : List Listed)
    → is_seen r rs ≡ true
    → (is_seen r (deduped seen rs) || is_seen r seen) ≡ true
unfolding is_seen deduped
is_seen-deduped r seen [] h = cc
is_seen-deduped r seen (a ∷ rs) h = elim (Bool-cases (same_route a r)) [
  | inl e ↦ ground (arith, is_seen-same a r seen e)
  | inr e ↦
      let t : is_seen r rs ≡ true = ground (arith, h, e) in
      ground (arith, is_seen-deduped r seen rs t, is_seen-deduped r (a ∷ seen) rs t)
]

take-whole : {A : Type 0} (n : ℕ) (xs : List A) → length xs ≤ n → take n xs ≡ xs
take-whole zero [] h = refl
take-whole (suc n) [] h = refl
take-whole zero (x ∷ xs) h = absurd (omega (arith, h))
take-whole (suc n) (x ∷ xs) h = ap (λ ys. x ∷ ys) (take-whole n xs (omega (arith, h)))

is_seen-with_final :
    (r : Listed) (working final : List Listed)
    → length working ≤ 4
    → is_seen r working ≡ true
    → is_seen r (with_final working final) ≡ true
is_seen-with_final r working [] h e = rw (take-whole 5 working (omega (arith, h))) e
is_seen-with_final r working (f ∷ fs) h e =
    rw (take-whole 4 working h, is_seen-append r working (f ∷ []), e) refl

or_false : (b : Bool) → (b || false) ≡ true → b ≡ true
or_false true h = refl
or_false false h = h

-- The routes that are put before the final review's.
abbrev pub working_routes : List Health → List Listed → List Listed
working_routes health routes =
    keep_routes (is_local_route health) routes
    ++ (keep_routes (is_free_route health) routes ++ keep_routes (is_fallback_route health) routes)

unhealthy_fallback :
    (health : List Health) (r : Listed)
    → is_healthy r.provider health ≡ false
    → is_final_review_route r ≡ false
    → (r.cost_tier == codes "paid") ≡ false
    → is_fallback_route health r ≡ true
unhealthy_fallback health r unhealthy f p = ground arith

-- A listed route of an unhealthy provider is shown all the same, with its provider and its model, unless
-- it is paid or a final review's: where it is local or free, the tests of the local and of the free
-- routes leave it out, but it comes back among the fallback routes. Stated where the routes that are
-- put before the final review's are at most four, so that the limit cuts none.
pub preview_routes-unhealthy :
    (health : List Health) (routes before after : List Listed) (r : Listed)
    → routes ≡ before ++ r ∷ after
    → is_healthy r.provider health ≡ false
    → is_final_review_route r ≡ false
    → (r.cost_tier == codes "paid") ≡ false
    → length (working_routes health routes) ≤ 4
    → is_seen r (preview_routes health routes) ≡ true
unfolding preview_routes is_seen
preview_routes-unhealthy health routes before after r e unhealthy f p few =
    let fallback = unhealthy_fallback health r unhealthy f p in
    let kept : is_seen r (keep_routes (is_fallback_route health) routes) ≡ true =
      rw (e) (is_seen-keep_routes (is_fallback_route health) r before after fallback) in
    let local = keep_routes (is_local_route health) routes in
    let free = keep_routes (is_free_route health) routes in
    let worked : is_seen r (working_routes health routes) ≡ true = ground (
      arith,
      kept,
      is_seen-append r local (free ++ keep_routes (is_fallback_route health) routes),
      is_seen-append r free (keep_routes (is_fallback_route health) routes),
    ) in
    let final = keep_routes (λ x. is_final_review_route x && is_usable health x) routes in
    let shown =
      is_seen-deduped r [] (with_final (working_routes health routes) final)
        (is_seen-with_final r (working_routes health routes) final few worked) in
    or_false _ shown
