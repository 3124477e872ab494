-- ===== src/Prelude/Tests.antt =====
-- Boolean tests on numbers and texts, the conditional, and the case splits on computed values.
use Prim.Native.Nat.{ℕ, ◌≤◌, ◌<◌, compare, Ordering}
use Prim.Native.String.{String}
use mathlib.Core.Path.{◌≡◌, refl, ap}
use mathlib.Core.Logic.{◌⊎◌, inl, inr, ◌↔◌}
use mathlib.Core.Bool.{Bool, true, false, ◌&&◌}
use mathlib.Core.Option.{Option, none, some}
use native.Mathlib.Omega.{arith}
use text.Mathlib.Text.{◌==◌ as text_eq}
use text.Mathlib.TextEquality.{eq_iff}

abbrev pub ltb : ℕ → ℕ → Bool
ltb a b = elim (compare a b) [ Ordering.lt ↦ true | _ ↦ false ]

abbrev pub leb : ℕ → ℕ → Bool
leb a b = elim (compare a b) [ Ordering.gt ↦ false | _ ↦ true ]

infix 50 ◌==◌
abbrev pub ◌==◌ : ℕ → ℕ → Bool
a == b = elim (compare a b) [ Ordering.eq ↦ true | _ ↦ false ]

infix 1 if◌then◌else◌
abbrev pub if◌then◌else◌ {ℓ} : {A : Type ℓ} → Bool → A → A → A
if true then x else y = x
if false then x else y = y

pub leb→le : (a b : ℕ) → leb a b ≡ true → a ≤ b
leb→le a b h = ground arith

pub ltb→lt : (a b : ℕ) → ltb a b ≡ true → a < b
ltb→lt a b h = ground arith

pub ==→≡ : (a b : ℕ) → (a == b) ≡ true → a ≡ b
==→≡ a b h = ground arith

pub ==_iff : (a b : ℕ) → ((a == b) ≡ true) ↔ (a ≡ b)
==_iff a b = ground arith

-- `===` of two strings.
infix 50 ◌===◌
abbrev pub ◌===◌ : String → String → Bool
a === b = text_eq a b

pub ===_iff : (a b : String) → ((a === b) ≡ true) ↔ (a ≡ b)
===_iff a b = eq_iff a b

pub ===_refl : (a : String) → (a === a) ≡ true
===_refl a = (eq_iff a a).1 refl

-- `===` of two values of type `string | null`.
unfoldable pub same_or_null : Option String → Option String → Bool
same_or_null none none = true
same_or_null none (some b) = false
same_or_null (some a) none = false
same_or_null (some a) (some b) = a === b

pub same_or_null_iff : (a b : Option String) → (same_or_null a b ≡ true) ↔ (a ≡ b)
unfolding same_or_null
same_or_null_iff none none = (λ h. refl, λ h. refl)
same_or_null_iff none (some b) = (λ h. cc, λ h. cc)
same_or_null_iff (some a) none = (λ h. cc, λ h. cc)
same_or_null_iff (some a) (some b) =
    (λ h. ap some ((eq_iff a b).0 h), λ h. ground (arith, eq_iff a b))

pub Bool-cases : (b : Bool) → (b ≡ true) ⊎ (b ≡ false)
Bool-cases true = inl refl
Bool-cases false = inr refl

pub Option-cases {ℓ} : {A : Type ℓ} (o : Option A) → (o ≡ none) ⊎ ((a : A) × (o ≡ some a))
Option-cases none = inl refl
Option-cases (some a) = inr (a, refl)

abbrev or_else {ℓ} : {A : Type ℓ} → A → Option A → A
or_else a none = a
or_else a (some b) = b

pub some-injective {ℓ} : {A : Type ℓ} {a b : A} → ◌≡◌ {A = Option A} (some a) (some b) → a ≡ b
some-injective {a} h = ap (or_else a) h

pub and-eq-true : (a b : Bool) → (a && b) ≡ true → (a ≡ true) × (b ≡ true)
and-eq-true true b h = (refl, h)
and-eq-true false b h = cc
