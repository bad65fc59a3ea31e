-- ===== src/Policy/Lifecycle.antt =====
-- The life of an approval: which calls move it along which edge, and that it is used once.
use personal_ai_model.Prelude.{
  ◌≡◌, refl, subst, ◌⊎◌, inl, inr, true, ◌||◌, Option, some, List, [], ◌∷◌, arith, Option-cases,
}
use personal_ai_model.Prelude.Text.{Text, text_discrete}
use personal_ai_model.Prelude.Result.{ok, err}
use personal_ai_model.Prelude.Keyed.{find, replace, key-find, find-replace, find-append}
use personal_ai_model.Policy.{
  Approval, Status, pending, approved, reserved, consumed, unknown_outcome, wrong_status, Scope,
  Request, id_of, request_action_approval, approve_action_request, reserve_action_approval,
  consume_action_approval, mark_approval_unknown_outcome, is_approved, is_reserved,
  validate_approval_scope, as_approved, as_reserved, as_consumed, as_unknown,
}
use personal_ai_model.Policy.Cases.{
  after, approve_cases, reserve_cases, consume_cases, unknown_cases,
}

-- A call with what the clock and the random source give it.
pub data Call : Type 0 where
  request : Request → Text → Text → Call
  approve : Text → Text → Call
  reserve : Text → Scope → Text → Text → Call
  consume : Text → Scope → Option Text → Text → Call
  mark_unknown : Text → Text → Option Text → Option Text → Option Text → Text → Call

module _ (sanitize : Text → Text) where
  unfoldable pub step : Call → List Approval → List Approval
  step (request q id now) entries = (request_action_approval sanitize q id now entries).1
  step (approve id now) entries = after entries (approve_action_request id now entries)
  step (reserve id s token now) entries =
      after entries (reserve_action_approval sanitize id s token now entries)
  step (consume id s evidence now) entries =
      after entries (consume_action_approval sanitize id s evidence now entries)
  step (mark_unknown id reason action target token now) entries =
      after entries
        (mark_approval_unknown_outcome sanitize id reason action target token now entries)

  unfoldable pub run : List Call → List Approval → List Approval
  run [] entries = entries
  run (c ∷ cs) entries = run cs (step c entries)

-- What was asked for and granted, which no call rewrites.
pub record SameRequest (a b : Approval) : Type 0 where
  pub same_id : a.id ≡ b.id
  pub same_action : a.action ≡ b.action
  pub same_target : a.target ≡ b.target
  pub same_canonical : a.canonical_target ≡ b.canonical_target
  pub same_user : a.user_id ≡ b.user_id
  pub same_account : a.account_id ≡ b.account_id
  pub same_connector : a.connector_scope ≡ b.connector_scope
  pub same_key : a.idempotency_key ≡ b.idempotency_key
  pub same_expiry : a.expires_at ≡ b.expires_at

-- pending -> approved -> reserved -> consumed or unknown_outcome, and approved -> consumed.
pub data Edge (s t : Status) : Type 0 where
  stays : s ≡ t → Edge s t
  approves : s ≡ pending → t ≡ approved → Edge s t
  reserves : s ≡ approved → t ≡ reserved → Edge s t
  consumes : (s ≡ approved) ⊎ (s ≡ reserved) → t ≡ consumed → Edge s t
  loses : s ≡ reserved → t ≡ unknown_outcome → Edge s t

-- What became of the entry that the queue shows under a key.
abbrev pub Moved : Text → Approval → List Approval → Type 0
Moved j a entries =
    (b : Approval) × (find id_of j entries ≡ some b) × SameRequest a b × Edge a.status b.status

SameRequest-refl : (a : Approval) → SameRequest a a
SameRequest-refl a = ground arith

find-functional :
    (j k : Text) (a r : Approval) (entries : List Approval)
    → find id_of j entries ≡ some a
    → find id_of k entries ≡ some r
    → r.id ≡ j
    → r ≡ a
find-functional j k a r entries e f h = cc (key-find id_of k entries r f)

replace-Moved :
    (j k : Text) (a r v : Approval) (entries : List Approval)
    → find id_of j entries ≡ some a
    → find id_of k entries ≡ some r
    → SameRequest r v
    → Edge r.status v.status
    → Moved j a (replace id_of r.id v entries)
replace-Moved j k a r v entries e f same edge = elim (text_discrete r.id j) [
  | yes h ↦
      let q = find-functional j k a r entries e f h in
      (
        v,
        ground (arith, find-replace id_of r.id j v entries),
        subst (λ x. SameRequest x v) q same,
        subst (λ (x : Approval). Edge x.status v.status) q edge,
      )
  | no h ↦ (a, ground (arith, find-replace id_of r.id j v entries), SameRequest-refl a, stays refl)
]

module _ (sanitize : Text → Text) (j : Text) (a : Approval) where
  -- Every call moves each entry along one edge at most, and rewrites nothing of what was granted.
  pub step-Moved :
      (c : Call) (entries : List Approval)
      → find id_of j entries ≡ some a
      → Moved j a (step sanitize c entries)
  unfolding step request_action_approval
  step-Moved (request q id now) entries e = (a, rw (find-append, e), SameRequest-refl a, stays refl)
  step-Moved (approve id now) entries e =
      approve_cases (Moved j a) entries (a, e, SameRequest-refl a, stays refl) id now
        λ r f h.
          replace-Moved j id a r (as_approved now r) entries e f (ground arith) (approves h refl)
  step-Moved (reserve id s token now) entries e =
      reserve_cases (Moved j a) entries (a, e, SameRequest-refl a, stays refl) sanitize id s token
        now
        λ r f h _.
          replace-Moved j id a r (as_reserved token now r) entries e f (ground arith)
            (reserves h refl)
  step-Moved (consume id s evidence now) entries e =
      consume_cases (Moved j a) entries (a, e, SameRequest-refl a, stays refl) sanitize id s
        evidence now
        λ r f h _.
          replace-Moved j id a r (as_consumed evidence now r) entries e f (ground arith)
            (consumes (usable r.status h) refl)
    where
      usable :
          (s : Status) → (is_approved s || is_reserved s) ≡ true → (s ≡ approved) ⊎ (s ≡ reserved)
      usable s h = ground arith
  step-Moved (mark_unknown id reason action target token now) entries e =
      unknown_cases (Moved j a) entries (a, e, SameRequest-refl a, stays refl) sanitize id reason
        action target token now
        λ r f h _.
          replace-Moved j id a r (as_unknown reason now r) entries e f (ground arith) (loses h refl)

-- No call after a consumption gives the approval out again.
abbrev pub IsSpent : Text → List Approval → Type 0
IsSpent j entries = (a : Approval) × (find id_of j entries ≡ some a) × (a.status ≡ consumed)

Edge-consumed : {s t : Status} → Edge s t → s ≡ consumed → t ≡ consumed
Edge-consumed (stays e) h = cc
Edge-consumed (approves e f) h = cc
Edge-consumed (reserves e f) h = cc
Edge-consumed (consumes e f) h = f
Edge-consumed (loses e f) h = cc

pub run-IsSpent :
    (sanitize : Text → Text) (j : Text) (cs : List Call) (entries : List Approval)
    → IsSpent j entries
    → IsSpent j (run sanitize cs entries)
unfolding run
run-IsSpent sanitize j [] entries h = h
run-IsSpent sanitize j (c ∷ cs) entries (a, e, h) =
    let (b, f, same, edge) = step-Moved sanitize j a c entries e in
    run-IsSpent sanitize j cs (step sanitize c entries) (b, f, Edge-consumed edge h)

-- What a successful consumption had before it.
pub consume_inversion :
    (sanitize : Text → Text) (id : Text) (s : Scope) (evidence : Option Text) (now : Text)
    (entries : List Approval) (w : Approval × List Approval)
    → consume_action_approval sanitize id s evidence now entries ≡ ok w
    → (r : Approval) × (find id_of id entries ≡ some r)
      × ((is_approved r.status || is_reserved r.status) ≡ true)
      × (validate_approval_scope sanitize r now (record s { require_token = is_reserved r.status })
          ≡ ok tt)
      × (w ≡ (as_consumed evidence now r, replace id_of r.id (as_consumed evidence now r) entries))
unfolding consume_action_approval
consume_inversion sanitize id s evidence now entries w e =
    elim (Option-cases (find id_of id entries)) [
      | inl f ↦ absurd (ground arith)
      | inr (r, f) ↦ (r, f, ground arith, ground arith, ground arith)
    ]

pub consume_ok-IsSpent :
    (sanitize : Text → Text) (id : Text) (s : Scope) (evidence : Option Text) (now : Text)
    (entries : List Approval) (w : Approval × List Approval)
    → consume_action_approval sanitize id s evidence now entries ≡ ok w
    → IsSpent id w.1
consume_ok-IsSpent sanitize id s evidence now entries w e =
    let (r, f, h, v, q) = consume_inversion sanitize id s evidence now entries w e in
    (
      as_consumed evidence now r,
      ground (
        arith,
        key-find id_of id entries r f,
        find-replace id_of r.id id (as_consumed evidence now r) entries,
      ),
      refl,
    )

consume-IsSpent :
    (sanitize : Text → Text) (id : Text) (s : Scope) (evidence : Option Text) (now : Text)
    (entries : List Approval)
    → IsSpent id entries
    → consume_action_approval sanitize id s evidence now entries ≡ err wrong_status
unfolding consume_action_approval
consume-IsSpent sanitize id s evidence now entries (a, e, h) =
    rw (e, consume_action_approval) (ground arith)

-- An approval is consumed once: after a consumption, and whatever calls follow it, every other
-- consumption of the same request is refused, whatever its scope and token.
pub consume_once :
    (sanitize : Text → Text) (id : Text) (s s' : Scope) (evidence evidence' : Option Text)
    (now now' : Text) (entries : List Approval) (w : Approval × List Approval) (calls : List Call)
    → consume_action_approval sanitize id s evidence now entries ≡ ok w
    → consume_action_approval sanitize id s' evidence' now' (run sanitize calls w.1)
      ≡ err wrong_status
consume_once sanitize id s s' evidence evidence' now now' entries w calls e =
    consume-IsSpent sanitize id s' evidence' now' _ (
      run-IsSpent sanitize id calls w.1 (consume_ok-IsSpent sanitize id s evidence now entries w e))
