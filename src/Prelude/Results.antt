-- ===== src/Prelude/Results.antt =====
-- Code that returns a value or throws.
use mathlib.Core.Path.{◌≡◌, refl, ap}
use mathlib.Core.Logic.{◌⊎◌, inl, inr}
use mathlib.Core.Bool.{Bool, true, false}

pub data Result {ℓ} (E : Type ℓ) (A : Type ℓ) : Type ℓ where
  ok : A → Result E A
  throws : E → Result E A

infixl 5 ◌>>=◌ ◌>>◌
abbrev pub ◌>>=◌ {ℓ} : {E A B : Type ℓ} → Result E A → (A → Result E B) → Result E B
ok a >>= f = f a
throws e >>= f = throws e

abbrev pub ◌>>◌ {ℓ} : {E A B : Type ℓ} → Result E A → Result E B → Result E B
m >> k = m >>= λ _. k

-- `if (!test) throw e`
abbrev pub require : {E : Type 0} → Bool → E → Result E (Unit {0})
require true e = ok tt
require false e = throws e

pub >>=-eq-ok {ℓ} :
    {E A B : Type ℓ} (first : Result E A) (next : A → Result E B) {result : B}
    → (first >>= next) ≡ ok result
    → (value : A) × (first ≡ ok value) × (next value ≡ ok result)
>>=-eq-ok (ok value) next h = (value, refl, h)
>>=-eq-ok (throws e) next h = cc

pub require-eq-ok :
    {E B : Type 0} (t : Bool) (e : E) (k : Result E B) {b : B}
    → (require t e >> k) ≡ ok b
    → (t ≡ true) × (k ≡ ok b)
require-eq-ok true e k h = (refl, h)
require-eq-ok false e k h = cc

pub Result-cases {ℓ} :
    {E A : Type ℓ} (r : Result E A) → ((a : A) × (r ≡ ok a)) ⊎ ((e : E) × (r ≡ throws e))
Result-cases (ok a) = inl (a, refl)
Result-cases (throws e) = inr (e, refl)

abbrev or_else {ℓ} : {E A : Type ℓ} → A → Result E A → A
or_else a (ok b) = b
or_else a (throws e) = a

pub ok-injective {ℓ} : {E A : Type ℓ} {a b : A} → ◌≡◌ {A = Result E A} (ok a) (ok b) → a ≡ b
ok-injective {a} h = ap (or_else a) h

pub ok-injective_pair {ℓ} :
    {E A B : Type ℓ} {a c : A} {b d : B}
    → ◌≡◌ {A = Result E (A × B)} (ok (a, b)) (ok (c, d))
    → (a ≡ c) × (b ≡ d)
ok-injective_pair h = (ap (λ p. p.0) (ok-injective h), ap (λ p. p.1) (ok-injective h))

pub require-eq-ok_last :
    {E : Type 0} (t : Bool) (e : E) {u : Unit {0}} → require t e ≡ ok u → t ≡ true
require-eq-ok_last true e h = refl
require-eq-ok_last false e h = cc
