-- ===== src/Outbox/Summary.antt =====
-- The failure summaries of storage/src/outbox-shared.ts: `errorMessage`, on the UTF-16 units of a text.
use veritio.Outbox.{Failure, error, other}
use veritio.Prelude.{
  ℕ, List, [], ◌∷◌, ◌++◌, Bool, true, false, ltb, if◌then◌else◌, every, length, take,
}
use veritio.Prelude.Text.{codes, is_white_space}

unfoldable pub drop_white : List ℕ → List ℕ
drop_white [] = []
drop_white (c ∷ cs) = let rest = drop_white cs in if is_white_space c then rest else c ∷ cs

-- `replace(/\s+/g, " ").trim()`: the words with one space between two.
unfoldable pub words_after : Bool → List ℕ → List ℕ
words_after gap [] = []
words_after gap (c ∷ cs) =
    let spaced = words_after true cs in
    let next = words_after false cs in
    if is_white_space c then spaced else if gap then 32 ∷ (c ∷ next) else c ∷ next

unfoldable pub single_line : List ℕ → List ℕ
unfolding drop_white words_after
single_line message = words_after false (drop_white message)

abbrev pub max_last_error_length : ℕ
max_last_error_length = 256

-- A summary over the limit ends in an ellipsis.
unfoldable pub bounded : List ℕ → List ℕ
bounded summary =
    if ltb max_last_error_length (length summary) then take 255 summary ++ 0x2026 ∷ [] else summary

abbrev pub named : List ℕ → List ℕ
named name = if every is_white_space name then codes "Error" else name

abbrev pub summary_of : List ℕ → List ℕ → List ℕ
summary_of name [] = name
summary_of name (c ∷ cs) = name ++ (codes ": " ++ (c ∷ cs))

unfoldable pub error_message : Failure → List ℕ
unfolding single_line bounded
error_message other = codes "outbox dispatch failed"
error_message (error name message) = bounded (summary_of (named name) (single_line message))
