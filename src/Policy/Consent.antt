-- ===== src/Policy/Consent.antt =====
-- What a use of an approval needs: a call that approved it, the reservation's token, and the scope
-- that was granted.
use personal_ai_model.Prelude.{
  ◌≡◌, ◌≢◌, refl, ◌⊎◌, inl, inr, Bool, true, Option, some, List, [], ◌∷◌, ◌++◌, arith,
}
use personal_ai_model.Prelude.Text.{Text, truthy, text_or, text_discrete}
use personal_ai_model.Prelude.Result.{ok}
use personal_ai_model.Prelude.Keyed.{find, replace, key-find, find-replace, find-append}
use personal_ai_model.Core.{markdown_escape}
use personal_ai_model.Policy.{
  Approval, pending, reserved, Scope, id_of, request_action_approval, consume_action_approval,
  is_reserved, validate_approval_scope, as_approved, as_reserved, as_consumed, as_unknown,
  is_sensitive, requires_external_scope, default_user, validate_identity, validate-Validated,
}
use personal_ai_model.Policy.Cases.{approve_cases, reserve_cases, consume_cases, unknown_cases}
use personal_ai_model.Policy.Lifecycle.{
  Call, request, approve, reserve, consume, mark_unknown, step, run, consume_inversion,
}

-- Nothing that the queue shows under the key has been approved.
abbrev pub Unapproved : Text → List Approval → Type 0
Unapproved j entries = (a : Approval) → find id_of j entries ≡ some a → a.status ≡ pending

-- One of the calls approves the request.
abbrev pub Approves : Text → List Call → Type 0
Approves j [] = ⊥
Approves j (approve id now ∷ cs) = (id ≡ j) ⊎ Approves j cs
Approves j (c ∷ cs) = Approves j cs

-- A call that moves an entry on from `approved` or `reserved` has none to move here.
replace-Unapproved :
    (j k : Text) (r v : Approval) (entries : List Approval)
    → Unapproved j entries
    → find id_of k entries ≡ some r
    → r.status ≢ pending
    → v.id ≡ r.id
    → Unapproved j (replace id_of r.id v entries)
replace-Unapproved j k r v entries u f h same a e = elim (text_discrete r.id j) [
  | yes q ↦ absurd (h (u r (cc (key-find id_of k entries r f))))
  | no q ↦ u a (ground (arith, find-replace id_of r.id j v entries))
]

append-Unapproved :
    (j : Text) (v : Approval) (entries : List Approval)
    → v.status ≡ pending
    → Unapproved j entries
    → Unapproved j (entries ++ v ∷ [])
unfolding find
append-Unapproved j v entries p u a e = ground (arith, find-append id_of j entries (v ∷ []), u a)

module _ (sanitize : Text → Text) (j : Text) where
  step-Unapproved :
      (c : Call) (cs : List Call) (entries : List Approval)
      → Unapproved j entries
      → Approves j (c ∷ cs) ⊎ Unapproved j (step sanitize c entries)
  unfolding step request_action_approval
  step-Unapproved (request q id now) cs entries u = inr (append-Unapproved j _ entries refl u)
  step-Unapproved (approve id now) cs entries u = elim (text_discrete id j) [
    | yes h ↦ inl (inl h)
    | no h ↦ inr (
        approve_cases (Unapproved j) entries u id now λ r f p a e. u a (
          ground (
            arith,
            key-find id_of id entries r f,
            find-replace id_of r.id j (as_approved now r) entries,
          )))
  ]
  step-Unapproved (reserve id s token now) cs entries u = inr (
      reserve_cases (Unapproved j) entries u sanitize id s token now
        λ r f h _. replace-Unapproved j id r (as_reserved token now r) entries u f (λ p. cc) refl)
  step-Unapproved (consume id s evidence now) cs entries u = inr (
      consume_cases (Unapproved j) entries u sanitize id s evidence now λ r f h _.
        replace-Unapproved j id r (as_consumed evidence now r) entries u f (λ p. ground arith) refl)
  step-Unapproved (mark_unknown id reason action target token now) cs entries u = inr (
      unknown_cases (Unapproved j) entries u sanitize id reason action target token now
        λ r f h _. replace-Unapproved j id r (as_unknown reason now r) entries u f (λ p. cc) refl)

  Approves-there : (c : Call) (cs : List Call) → Approves j cs → Approves j (c ∷ cs)
  Approves-there (approve id now) cs h = inr h
  Approves-there (request q id now) cs h = h
  Approves-there (reserve id s token now) cs h = h
  Approves-there (consume id s evidence now) cs h = h
  Approves-there (mark_unknown id reason action target token now) cs h = h

  run-Unapproved :
      (cs : List Call) (entries : List Approval)
      → Unapproved j entries
      → Approves j cs ⊎ Unapproved j (run sanitize cs entries)
  unfolding run
  run-Unapproved [] entries u = inr u
  run-Unapproved (c ∷ cs) entries u = elim (step-Unapproved c cs entries u) [
    | inl h ↦ inl h
    | inr v ↦ elim (run-Unapproved cs (step sanitize c entries) v) [
      | inl h ↦ inl (Approves-there c cs h)
      | inr w ↦ inr w
    ]
  ]

  -- From an empty queue, no request is found approved, reserved, consumed or with an unknown outcome
  -- unless one of the calls approved it.
  pub run-needs_approve :
      (cs : List Call) (a : Approval)
      → find id_of j (run sanitize cs []) ≡ some a
      → a.status ≢ pending
      → Approves j cs
  unfolding find
  run-needs_approve cs a e h = elim (run-Unapproved cs [] (λ x f. cc)) [
    | inl approved_by ↦ approved_by
    | inr u ↦ absurd (h (u a e))
  ]

-- A reserved approval is consumed by the holder of its token only.
pub consume-needs_token :
    (sanitize : Text → Text) (id : Text) (s : Scope) (evidence : Option Text) (now : Text)
    (entries : List Approval) (r : Approval) (w : Approval × List Approval)
    → find id_of id entries ≡ some r
    → r.status ≡ reserved
    → consume_action_approval sanitize id s evidence now entries ≡ ok w
    → (truthy s.reservation_token ≡ true) × (s.reservation_token ≡ r.reservation_token)
consume-needs_token sanitize id s evidence now entries r w f h e =
    let (q, g, usable, v, _) = consume_inversion sanitize id s evidence now entries w e in
    let same : q ≡ r = cc in
    let t =
      (validate-Validated sanitize q now (record s { require_token = is_reserved q.status })
        v).token_granted in
    ground arith

-- What the scope of an external sensitive action pins down.
pub record Granted (r : Approval) (s : Scope) : Type 0 where
  pub action : r.action ≡ markdown_escape s.action
  pub user : r.user_id ≡ some (text_or s.user_id default_user)
  pub account : r.account_id ≡ s.account_id
  pub account_named : truthy s.account_id ≡ true
  pub connector : r.connector_scope ≡ s.connector_scope
  pub connector_named : truthy s.connector_scope ≡ true

validate_identity-Granted :
    (r : Approval) (s : Scope) (b : Bool)
    → r.action ≡ markdown_escape s.action
    → validate_identity true true r (record s { require_token = b }) ≡ ok tt
    → Granted r s
unfolding validate_identity
validate_identity-Granted r s b a e = ground arith

-- An approval is used for an external sensitive action only by the user, the account and the
-- connector to which it was granted, and for the action that was approved.
pub consume_in_scope :
    (sanitize : Text → Text) (id : Text) (s : Scope) (evidence : Option Text) (now : Text)
    (entries : List Approval) (w : Approval × List Approval)
    → is_sensitive (markdown_escape s.action) ≡ true
    → requires_external_scope (markdown_escape s.action) ≡ true
    → consume_action_approval sanitize id s evidence now entries ≡ ok w
    → (r : Approval) × (find id_of id entries ≡ some r) × Granted r s
consume_in_scope sanitize id s evidence now entries w sensitive external e =
    let (r, f, usable, v, _) = consume_inversion sanitize id s evidence now entries w e in
    let checked =
      validate-Validated sanitize r now (record s { require_token = is_reserved r.status }) v in
    (
      r,
      f,
      validate_identity-Granted r s (is_reserved r.status) checked.action_granted
          (rw (sensitive, external) at checked.identity_granted),
    )

validate_empty_target :
    (sanitize : Text → Text) (r : Approval) (now : Text) (s : Scope) (target : Text) (b : Bool)
    → sanitize [] ≡ []
    → r.target ≡ []
    → r.canonical_target ≡ []
    → validate_approval_scope sanitize r now (record s { target = target; require_token = b })
      ≡ validate_approval_scope sanitize r now (record s { require_token = b })
unfolding validate_approval_scope validate_identity
validate_empty_target sanitize r now s target b blank t c = rw (t, c, blank)

-- An approval whose target and canonical target are empty is consumed for one target as for any
-- other, provided that sanitising keeps the empty text.
pub consume_empty_target :
    (sanitize : Text → Text) (id : Text) (s : Scope) (target : Text) (evidence : Option Text)
    (now : Text) (entries : List Approval) (r : Approval)
    → sanitize [] ≡ []
    → find id_of id entries ≡ some r
    → r.target ≡ []
    → r.canonical_target ≡ []
    → consume_action_approval sanitize id (record s { target = target }) evidence now entries
      ≡ consume_action_approval sanitize id s evidence now entries
unfolding consume_action_approval
consume_empty_target sanitize id s target evidence now entries r blank f t c =
    rw (f, consume_action_approval)
      (rw (validate_empty_target sanitize r now s target (is_reserved r.status) blank t c))
