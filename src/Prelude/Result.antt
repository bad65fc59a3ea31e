-- ===== src/Prelude/Result.antt =====
-- An operation that may raise `GuardianError`: `E` names its messages, one constructor for each.
use mathlib.Core.Path.{◌≡◌, refl}
use mathlib.Core.Logic.{◌⊎◌, inl, inr}
use mathlib.Core.Bool.{Bool, true, false}

pub data Result {ℓ} (E : Type 0) (A : Type ℓ) : Type ℓ where
  ok : A → Result E A
  err : E → Result E A

abbrev pub ◌>>=◌ {ℓ κ} :
    {E : Type 0} {A : Type ℓ} {B : Type κ} → Result E A → (A → Result E B) → Result E B
ok value >>= next = next value
err message >>= next = err message

abbrev pub ◌>>◌ {ℓ} : {E : Type 0} {B : Type ℓ} → Result E (Unit {0}) → Result E B → Result E B
first >> second = first >>= λ _. second

infixl 5 ◌>>=◌ ◌>>◌
-- if test: raise e
abbrev pub raise_if : {E : Type 0} → Bool → E → Result E (Unit {0})
raise_if true e = err e
raise_if false e = ok tt

-- A chain that succeeds has an intermediate value.
pub >>=-ok {ℓ κ} :
    {E : Type 0} {A : Type ℓ} {B : Type κ} {b : B} (first : Result E A) (next : A → Result E B)
    → (first >>= next) ≡ ok b
    → (value : A) × (first ≡ ok value) × (next value ≡ ok b)
>>=-ok (ok value) next succeeds = (value, refl, succeeds)
>>=-ok (err message) next succeeds = cc

pub Result-cases {ℓ} :
    {E : Type 0} {A : Type ℓ} (m : Result E A) → ((e : E) × (m ≡ err e)) ⊎ ((a : A) × (m ≡ ok a))
Result-cases (ok a) = inr (a, refl)
Result-cases (err e) = inl (e, refl)

pub ok-injective {ℓ} :
    {E : Type 0} {A : Type ℓ} {a b : A} → ◌≡◌ {A = Result E A} (ok a) (ok b) → a ≡ b
ok-injective e = cc
