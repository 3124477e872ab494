-- ===== src/Prelude/Lists.antt =====
-- Lists measured by native numbers, Boolean filters, and predicates on all members.
use Prim.Native.Nat.{ℕ, zero, suc, ◌+◌}
use mathlib.Core.Path.{◌≡◌, refl}
use mathlib.Core.Logic.{◌⊎◌, inl, inr}
use Prim.{⊥, absurd}
use mathlib.Core.Bool.{Bool, true, false, ◌&&◌, ◌||◌}
use mathlib.Core.List.{List, [], ◌∷◌, ◌++◌}
use mathlib.Core.Option.{Option, none, some}
use native.Mathlib.Omega.{arith}
use veritio.Prelude.Tests.{if◌then◌else◌, Bool-cases}

module _ {ℓ} {A : Type ℓ} where
  abbrev pub length : List A → ℕ
  length [] = 0
  length (x ∷ xs) = suc (length xs)

  pub length-append : (xs ys : List A) → length (xs ++ ys) ≡ length xs + length ys
  length-append [] ys = omega arith
  length-append (x ∷ xs) ys = omega (arith, length-append xs ys)

  abbrev pub take : ℕ → List A → List A
  take zero xs = []
  take (suc n) [] = []
  take (suc n) (x ∷ xs) = x ∷ take n xs

  -- `Array.prototype.every` and `some`.
  abbrev pub every : (A → Bool) → List A → Bool
  every p [] = true
  every p (x ∷ xs) = p x && every p xs

  abbrev pub any : (A → Bool) → List A → Bool
  any p [] = false
  any p (x ∷ xs) = p x || any p xs

  -- `Array.prototype.filter`.
  abbrev pub keep : (A → Bool) → List A → List A
  keep p [] = []
  keep p (x ∷ xs) = if p x then x ∷ keep p xs else keep p xs

  -- `Array.prototype.find`.
  abbrev pub find : (A → Bool) → List A → Option A
  find p [] = none
  find p (x ∷ xs) = if p x then some x else find p xs

  -- `Array.prototype.at(-1)`.
  abbrev pub last? : List A → Option A
  last? [] = none
  last? (x ∷ []) = some x
  last? (x ∷ y ∷ ys) = last? (y ∷ ys)

  pub last?-concat : (xs : List A) (x : A) → last? (xs ++ x ∷ []) ≡ some x
  last?-concat [] x = refl
  last?-concat (y ∷ []) x = refl
  last?-concat (y ∷ z ∷ zs) x = last?-concat (z ∷ zs) x

  pub keep-append : (p : A → Bool) (xs ys : List A) → keep p (xs ++ ys) ≡ keep p xs ++ keep p ys
  keep-append p [] ys = refl
  keep-append p (x ∷ xs) ys = ground (arith, keep-append p xs ys)

module _ {ℓ κ} {A : Type ℓ} where
  abbrev pub All : (A → Type κ) → List A → Type κ
  All P [] = Unit
  All P (x ∷ xs) = P x × All P xs

  pub All-append :
      (P : A → Type κ) (front back : List A) → All P front → All P back → All P (front ++ back)
  All-append P [] back h k = k
  All-append P (x ∷ front) back h k = (h.0, All-append P front back h.1 k)

  pub All-keep : (P : A → Type κ) (p : A → Bool) (xs : List A) → All P xs → All P (keep p xs)
  All-keep P p [] h = tt
  All-keep P p (x ∷ xs) h = elim (Bool-cases (p x)) [
    | inl here ↦ rw here (h.0, All-keep P p xs h.1)
    | inr gone ↦ rw gone (All-keep P p xs h.1)
  ]

module _ {ℓ} {A : Type ℓ} where
  -- Two lists of one length whose members are related place by place.
  abbrev pub Each : (A → A → Type 0) → List A → List A → Type 0
  Each R [] [] = Unit
  Each R [] (y ∷ ys) = ⊥
  Each R (x ∷ xs) [] = ⊥
  Each R (x ∷ xs) (y ∷ ys) = R x y × Each R xs ys

  -- Every two members at different places are related.
  abbrev pub Pairwise : (A → A → Type 0) → List A → Type 0
  Pairwise R [] = Unit
  Pairwise R (x ∷ xs) = All (R x) xs × Pairwise R xs

  pub All-map : (P Q : A → Type 0) (f : (x : A) → P x → Q x) (xs : List A) → All P xs → All Q xs
  All-map P Q f [] h = tt
  All-map P Q f (x ∷ xs) h = (f x h.0, All-map P Q f xs h.1)

  pub All-both :
      (P Q R : A → Type 0) (f : (x : A) → P x → Q x → R x) (xs : List A)
      → All P xs
      → All Q xs
      → All R xs
  All-both P Q R f [] h k = tt
  All-both P Q R f (x ∷ xs) h k = (f x h.0 k.0, All-both P Q R f xs h.1 k.1)

  pub Each-refl : (R : A → A → Type 0) (f : (x : A) → R x x) (xs : List A) → Each R xs xs
  Each-refl R f [] = tt
  Each-refl R f (x ∷ xs) = (f x, Each-refl R f xs)

  -- A predicate that every change keeps holds after the changes.
  pub Each-All :
      (R : A → A → Type 0) (P Q : A → Type 0) (f : (x y : A) → R x y → P x → Q y) (xs ys : List A)
      → Each R xs ys
      → All P xs
      → All Q ys
  Each-All R P Q f [] [] h k = tt
  Each-All R P Q f [] (y ∷ ys) h k = absurd h
  Each-All R P Q f (x ∷ xs) [] h k = absurd h
  Each-All R P Q f (x ∷ xs) (y ∷ ys) h k = (f x y h.0 k.0, Each-All R P Q f xs ys h.1 k.1)

  pub Each-Pairwise :
      (R S T : A → A → Type 0) (f : (a b x y : A) → R a x → R b y → S a b → T x y) (xs ys : List A)
      → Each R xs ys
      → Pairwise S xs
      → Pairwise T ys
  Each-Pairwise R S T f [] [] h k = tt
  Each-Pairwise R S T f [] (y ∷ ys) h k = absurd h
  Each-Pairwise R S T f (x ∷ xs) [] h k = absurd h
  Each-Pairwise R S T f (x ∷ xs) (y ∷ ys) h k = (
    Each-All R (S x) (T y) (λ b z. f x b y z h.0) xs ys h.1 k.0,
    Each-Pairwise R S T f xs ys h.1 k.1,
  )

  -- Some member has the property.
  abbrev pub Any : (A → Type 0) → List A → Type 0
  Any P [] = ⊥
  Any P (x ∷ xs) = P x ⊎ Any P xs

  pub Any-append : (P : A → Type 0) (front back : List A) → Any P front → Any P (front ++ back)
  Any-append P [] back h = absurd h
  Any-append P (x ∷ front) back (inl here) = inl here
  Any-append P (x ∷ front) back (inr later) = inr (Any-append P front back later)

  pub Any-append_right : (P : A → Type 0) (front back : List A) → Any P back → Any P (front ++ back)
  Any-append_right P [] back h = h
  Any-append_right P (x ∷ front) back h = inr (Any-append_right P front back h)

  pub Any-map : (P Q : A → Type 0) → ((x : A) → P x → Q x) → (xs : List A) → Any P xs → Any Q xs
  Any-map P Q f [] h = absurd h
  Any-map P Q f (x ∷ xs) (inl here) = inl (f x here)
  Any-map P Q f (x ∷ xs) (inr later) = inr (Any-map P Q f xs later)

  -- A member stands, changed, in the list after the changes.
  pub Each-Any :
      (R : A → A → Type 0) (P Q : A → Type 0)
      → ((x y : A) → R x y → P x → Q y)
      → (xs ys : List A) → Each R xs ys
      → Any P xs
      → Any Q ys
  Each-Any R P Q f [] ys h k = absurd k
  Each-Any R P Q f (x ∷ xs) [] h k = absurd h
  Each-Any R P Q f (x ∷ xs) (y ∷ ys) h (inl here) = inl (f x y h.0 here)
  Each-Any R P Q f (x ∷ xs) (y ∷ ys) h (inr later) = inr (Each-Any R P Q f xs ys h.1 later)

  -- What every member has of itself, it has of the whole list.
  pub All-Any :
      (R : A → A → Type 0) → ((x : A) → R x x) → (xs : List A) → All (λ x. Any (R x) xs) xs
  All-Any R f [] = tt
  All-Any R f (x ∷ xs) = (
    inl (f x),
    All-map (λ y. Any (R y) xs) (λ y. Any (R y) (x ∷ xs)) (λ y h. inr h) xs (All-Any R f xs),
  )
