-- ===== src/Accounts/Revocation.antt =====
-- A revoked account under any calls.
use personal_ai_model.Prelude.{
  ℕ, ◌≡◌, ◌≢◌, refl, sym, ap, subst, true, not, ◌||◌, some, List, [], ◌∷◌, arith, inl, inr, All,
  Option-cases, Bool-cases,
}
use personal_ai_model.Prelude.Text.{
  Text, codes, lower, starts_with, is_empty, ◌==◌, strip, is_space,
}
use personal_ai_model.Policy.{one_of}
use personal_ai_model.Prelude.Result.{Result, ok, err, >>=-ok, raise_if, ok-injective, Result-cases}
use personal_ai_model.Prelude.Keyed.{find, assign, find-assign, key-find}
use personal_ai_model.Accounts.{
  Account, name_of, AccountError, Store, Registration, register_account, get_account,
  revoke_account, validate_account_id, as_revoked, wipe_profile, is_revoked, valid_services,
  clean_domains, bad_service, bad_vault_ref, no_domains,
}
use personal_ai_model.Accounts.Ids.{validate_account_id-checks}

pub data Call : Type 0 where
  register_call : Registration → Text → Call
  revoke_call : (id : Text) → (now : ℕ) → Call

abbrev pub kept_store : Store → Result AccountError (Account × Store) → Store
kept_store st (ok w) = w.1
kept_store st (err x) = st

unfoldable pub step : Call → Store → Store
step (register_call q now) st = kept_store st (register_account q now st)
step (revoke_call id now) st = kept_store st (revoke_account id now st)

unfoldable pub run : List Call → Store → Store
unfolding step
run [] st = st
run (c ∷ cs) st = run cs (step c st)

-- The call does not register the account anew.
abbrev pub Spares : Text → Call → Type 0
Spares id (register_call q now) = strip is_space q.account_id ≢ id
Spares id (revoke_call i now) = Unit

-- The account is there, and revoked.
abbrev pub Revoked : Text → Store → Type 0
Revoked id st = (a : Account) × (find name_of id st.accounts ≡ some a) × (a.revoked ≡ true)

get_ok-found :
    (id : Text) (now : ℕ) (st : Store) (a : Account)
    → get_account id now st ≡ ok a
    → (clean : Text) × (validate_account_id id ≡ ok clean)
      × (find name_of clean st.accounts ≡ some a)
unfolding get_account
get_ok-found id now st a h =
    let (clean, valid, g) = >>=-ok (validate_account_id id) _ h in
    elim (Option-cases (find name_of clean st.accounts)) [
      | inl e ↦ absurd (ground (arith, g, e))
      | inr (b, e) ↦ (clean, valid, ground (arith, g, e))
    ]

revoke-Revoked :
    (id j : Text) (now : ℕ) (st : Store)
    → Revoked j st
    → Revoked j (kept_store st (revoke_account id now st))
unfolding revoke_account
revoke-Revoked id j now st (a, f, r) = elim (Result-cases (get_account id now st)) [
  | inl (x, e) ↦ rw (revoke_account, e) (a, f, r)
  | inr (b, e) ↦
      rw (revoke_account, e, find-assign name_of j (as_revoked b) st.accounts)
        (elim (Bool-cases (b.id == j)) [
          | inl s ↦ rw (s) (as_revoked b, refl, refl)
          | inr s ↦ rw (s) (a, f, r)
        ])
]

register_ok-assigns :
    (q : Registration) (now : Text) (st : Store) (w : Account × Store)
    → register_account q now st ≡ ok w
    → (v : Account) × (v.id ≡ strip is_space q.account_id)
      × (w.1.accounts ≡ assign name_of v st.accounts)
unfolding register_account
register_ok-assigns q now st w h =
    let (id, valid, g1) = >>=-ok (validate_account_id q.account_id) _ h in
    let (u1, c1, g2) =
      >>=-ok
        (raise_if (not (one_of (strip is_space (lower q.service_name)) valid_services)) bad_service)
        _ g1 in
    let (u2, c2, g3) =
      >>=-ok
        (raise_if
          (not (
            starts_with q.vault_ref (codes "vault://") || starts_with q.vault_ref (codes "vault:")))
          bad_vault_ref)
        _ g2 in
    let (u3, c3, g4) = >>=-ok (raise_if (is_empty q.allowed_domains) no_domains) _ g3 in
    let (domains, c4, e) = >>=-ok (clean_domains q.allowed_domains) _ g4 in
    (
      _,
      sym (validate_account_id-checks q.account_id id valid).0,
      ap (λ x. x.1.accounts) (sym (ok-injective e)),
    )

register-Revoked :
    (q : Registration) (now j : Text) (st : Store)
    → strip is_space q.account_id ≢ j
    → Revoked j st
    → Revoked j (kept_store st (register_account q now st))
register-Revoked q now j st n (a, f, r) = elim (Result-cases (register_account q now st)) [
  | inl (x, e) ↦ rw (e) (a, f, r)
  | inr (w, e) ↦
      let (v, named, same) = register_ok-assigns q now st w e in
      rw (e, same) (a, ground (arith, find-assign name_of j v st.accounts, named, n, f), r)
]

run-Revoked :
    (j : Text) (cs : List Call) (st : Store)
    → All (Spares j) cs
    → Revoked j st
    → Revoked j (run cs st)
unfolding run step
run-Revoked j [] st h v = v
run-Revoked j (register_call q now ∷ cs) st (n, h) v =
    run-Revoked j cs _ h (register-Revoked q now j st n v)
run-Revoked j (revoke_call id now ∷ cs) st (n, h) v =
    run-Revoked j cs _ h (revoke-Revoked id j now st v)

get-Revoked :
    (id clean : Text) (now : ℕ) (st : Store)
    → validate_account_id id ≡ ok clean
    → Revoked clean st
    → get_account id now st ≡ err is_revoked
unfolding get_account
get-Revoked id clean now st valid (a, f, r) = rw (get_account, valid, f, r) refl

Revoked-found :
    (clean : Text) (a : Account) (st : Store) (w : Account × Store)
    → find name_of clean st.accounts ≡ some a
    → ◌≡◌ {A = Result AccountError (Account × Store)}
        (ok (
          as_revoked a,
          record {
            accounts = assign name_of (as_revoked a) st.accounts;
            profiles = wipe_profile a.id st.profiles;
          },
        ))
        (ok w)
    → Revoked clean w.1
Revoked-found clean a st w f e =
    subst (λ x. Revoked clean x.1) (ok-injective e)
      (
        as_revoked a,
        ground (
          arith,
          find-assign name_of clean (as_revoked a) st.accounts,
          key-find name_of clean st.accounts a f,
        ),
        refl,
      )

-- A revoked account is refused from then on, whatever accounts are revoked and whatever others are registered: only
-- its own registration brings it back.
pub get_account-revoked :
    (id : Text) (now now' : ℕ) (st : Store) (w : Account × Store) (cs : List Call)
    → revoke_account id now st ≡ ok w
    → All (Spares (strip is_space id)) cs
    → get_account id now' (run cs w.1) ≡ err is_revoked
unfolding revoke_account
get_account-revoked id now now' st w cs h spares =
    let (a, got, e) = >>=-ok (get_account id now st) _ h in
    let (clean, valid, f) = get_ok-found id now st a got in
    let same = (validate_account_id-checks id clean valid).0 in
    get-Revoked id clean now' _ valid (
      run-Revoked clean cs w.1 (subst (λ x. All (Spares x) cs) same spares)
        (Revoked-found clean a st w f e))
