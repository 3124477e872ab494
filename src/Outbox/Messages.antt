-- ===== src/Outbox/Messages.antt =====
-- The failure summaries of storage/src/outbox-shared.ts: how long they are, and what is in them.
use veritio.Prelude.{
  ℕ, zero, suc, ◌≤◌, ◌≡◌, refl, List, [], ◌∷◌, ◌++◌, Bool, true, false, not, ◌||◌, ltb, ◌==◌, inl,
  inr, Bool-cases, and-eq-true, every, length, length-append, take, arith,
}
use veritio.Prelude.Text.{codes, is_white_space}
use veritio.Outbox.{Failure, error, other}
use veritio.Outbox.Summary.{
  single_line, drop_white, words_after, bounded, max_last_error_length, error_message, named,
  summary_of,
}

length-take : (n : ℕ) (cs : List ℕ) → length (take n cs) ≤ n
length-take zero cs = omega arith
length-take (suc n) [] = omega arith
length-take (suc n) (c ∷ cs) = omega (arith, length-take n cs)

length-bounded : (s : List ℕ) → length (bounded s) ≤ max_last_error_length
unfolding bounded
length-bounded s = elim (Bool-cases (ltb max_last_error_length (length s))) [
  | inl over ↦
      rw (over, length-append (take 255 s) (0x2026 ∷ [])) (omega (arith, length-take 255 s))
  | inr fits ↦ rw fits (ground arith)
]

-- A character that a single line may have: a space, or no white space.
abbrev pub is_inline : ℕ → Bool
is_inline c = c == 32 || not (is_white_space c)

words_after-inline : (gap : Bool) (cs : List ℕ) → every is_inline (words_after gap cs) ≡ true
unfolding words_after
words_after-inline gap [] = refl
words_after-inline true (c ∷ cs) = elim (Bool-cases (is_white_space c)) [
  | inl white ↦ rw (white, every) (words_after-inline true cs)
  | inr black ↦ rw (black, every, words_after-inline false cs) (ground arith)
]
words_after-inline false (c ∷ cs) = elim (Bool-cases (is_white_space c)) [
  | inl white ↦ rw (white, every) (words_after-inline true cs)
  | inr black ↦ rw (black, every, words_after-inline false cs) (ground arith)
]

every-append :
    (p : ℕ → Bool) (xs ys : List ℕ)
    → every p xs ≡ true
    → every p ys ≡ true
    → every p (xs ++ ys) ≡ true
every-append p [] ys h k = k
every-append p (x ∷ xs) ys h k =
    let (first, rest) = and-eq-true (p x) _ h in rw (first, every-append p xs ys rest k) refl

every-take : (p : ℕ → Bool) (n : ℕ) (xs : List ℕ) → every p xs ≡ true → every p (take n xs) ≡ true
every-take p zero xs h = refl
every-take p (suc n) [] h = refl
every-take p (suc n) (x ∷ xs) h =
    let (first, rest) = and-eq-true (p x) _ h in rw (first, every-take p n xs rest) refl

bounded-inline : (s : List ℕ) → every is_inline s ≡ true → every is_inline (bounded s) ≡ true
unfolding bounded is_white_space
bounded-inline s h = elim (Bool-cases (ltb max_last_error_length (length s))) [
  | inl over ↦
      rw over
        (every-append is_inline (take 255 s) (0x2026 ∷ []) (every-take is_inline 255 s h) refl)
  | inr fits ↦ rw fits h
]

summary-inline :
    (name line : List ℕ)
    → every is_inline name ≡ true
    → every is_inline line ≡ true
    → every is_inline (summary_of name line) ≡ true
unfolding is_white_space
summary-inline name [] h k = h
summary-inline name (c ∷ cs) h k =
    every-append is_inline name _ h (every-append is_inline (codes ": ") (c ∷ cs) refl k)

named-inline : (name : List ℕ) → every is_inline name ≡ true → every is_inline (named name) ≡ true
unfolding is_white_space
named-inline name h = elim (Bool-cases (every is_white_space name)) [
  | inl blank ↦ rw blank refl
  | inr filled ↦ rw filled h
]

-- The name of a thrown error, where it has one.
abbrev pub name_of : Failure → List ℕ
name_of (error name message) = name
name_of other = []

-- The summary of a failure has at most 256 UTF-16 units; and where the error's name has no white space
-- but spaces, neither has the summary, whatever the message: it is one line.
pub error_message-bounded :
    (failure : Failure)
    → (length (error_message failure) ≤ 256)
      × ((not (every is_inline (name_of failure)) || every is_inline (error_message failure))
          ≡ true)
unfolding error_message single_line is_white_space
error_message-bounded other = (omega arith, refl)
error_message-bounded (error name message) = (
  length-bounded (summary_of (named name) (single_line message)),
  elim (Bool-cases (every is_inline name)) [
    | inr other' ↦ rw other' refl
    | inl flat ↦
        rw
          (
            flat,
            bounded-inline (summary_of (named name) (single_line message)) (
                summary-inline (named name) (single_line message) (named-inline name flat)
                  (words_after-inline false (drop_white message))),
          )
          refl
  ],
)
