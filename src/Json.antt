-- ===== src/Json.antt =====
-- The canonical JSON of sdks/typescript/src/index.ts: `canonicalJson` and `normalizeForJson` on JSON
-- values, and the text that `JSON.stringify` writes. A number is an integer, `neg n` for -(n + 1).
use veritio.Prelude.{
  Option, none, some, ℕ, zero, suc, ◌+◌, ◌-◌, ◌/◌, ◌%◌, ◌≡◌, refl, String, Bool, true, false, ◌&&◌,
  ◌||◌, not, [], ◌∷◌, ◌++◌, ltb, leb, ◌==◌, ◌===◌, if◌then◌else◌, every, length,
}
use veritio.Prelude.Text.{Text, codes, units_le, text_le}

mutual
  pub data Json : Type 0 where
    null : Json
    bool : Bool → Json
    num : ℕ → Json
    neg : ℕ → Json
    str : String → Json
    arr : Items → Json
    obj : Members → Json

  pub data Items : Type 0 where
    nil : Items
    item : Json → Items → Items

  pub data Members : Type 0 where
    end : Members
    member : String → Json → Members → Members

-- A field of a JSON object; the last of two members of one name is the one that a parser keeps.
field_of : Members → String → Option Json
field_of end key = none
field_of (member k v ms) key =
    let rest = field_of ms key in
    elim rest [ some later ↦ some later | none ↦ if k === key then some v else none ]

unfoldable pub field : Json → String → Option Json
unfolding field_of
field (obj ms) key = field_of ms key
field _ key = none

is_digit : ℕ → Bool
is_digit c = leb b'0' c && leb c b'9'

-- A canonical numeral below 2^32 - 1 in a text of digits.
is_index_text : Text → Bool
unfolding is_digit
is_index_text [] = false
is_index_text (c ∷ cs) =
    every is_digit (c ∷ cs)
    && (c == b'0' && length cs == 0 || not (c == b'0'))
    && (ltb (length cs) 9 || length cs == 9 && units_le (c ∷ cs) (codes "4294967294"))

-- The property names that an object enumerates first, in numeric order.
is_array_index : String → Bool
unfolding is_index_text
is_array_index key = is_index_text (codes key)

index_le : String → String → Bool
index_le a b =
    let m = length (codes a) in let n = length (codes b) in if m == n then text_le a b else ltb m n

-- The order in which `JSON.stringify` meets the keys that `normalizeForJson` sorted and then set on
-- a fresh object: array indices by value, then the other keys by code units.
unfoldable pub key_le : String → String → Bool
unfolding is_array_index text_le index_le
key_le a b =
    if is_array_index a
    then (if is_array_index b then index_le a b else true)
    else if is_array_index b
    then false
    else text_le a b

-- `result[key] = normalized`: an assignment to `__proto__` makes no property.
unfoldable pub place : String → Json → Members → Members
unfolding key_le
place key value end = if key === "__proto__" then end else member key value end
place key value (member k v ms) =
    let rest = place key value ms in
    if key === "__proto__"
    then member k v ms
    else if key_le key k
    then member key value (member k v ms)
    else member k v rest

unfoldable mutual
  unfolding place

  pub normalize_for_json : Json → Json
  normalize_for_json (arr xs) = arr (normalize_items xs)
  normalize_for_json (obj ms) = obj (normalize_members ms)
  normalize_for_json value = value

  pub normalize_items : Items → Items
  normalize_items nil = nil
  normalize_items (item x xs) = item (normalize_for_json x) (normalize_items xs)

  pub normalize_members : Members → Members
  normalize_members end = end
  normalize_members (member k v ms) = place k (normalize_for_json v) (normalize_members ms)

-- The decimal digits of `n`, in front of `rest`; `fuel` above the number of digits is enough.
digits : ℕ → ℕ → Text → Text
digits zero n rest = rest
digits (suc fuel) n rest =
    let more = digits fuel (n / 10) ((b'0' + n % 10) ∷ rest) in
    if ltb n 10 then (b'0' + n) ∷ rest else more

pub decimal : ℕ → Text
unfolding digits
decimal n = digits (suc n) n []

hex_digit : ℕ → ℕ
hex_digit n = if ltb n 10 then b'0' + n else b'a' + (n - 10)

escape : ℕ → Text
unfolding hex_digit
escape c =
    if c == b'"'
    then codes "\\\""
    else if c == 92
    then codes "\\\\"
    else if leb 32 c
    then c ∷ []
    else if c == 8
    then codes "\\b"
    else if c == 9
    then codes "\\t"
    else if c == 10
    then codes "\\n"
    else if c == 12
    then codes "\\f"
    else if c == 13
    then codes "\\r"
    else codes "\\u00" ++ (hex_digit (c / 16) ∷ hex_digit (c % 16) ∷ [])

escape_all : Text → Text
unfolding escape
escape_all [] = []
escape_all (c ∷ cs) = escape c ++ escape_all cs

quote : String → Text
unfolding escape_all
quote s = b'"' ∷ (escape_all (codes s) ++ b'"' ∷ [])

unfoldable mutual
  unfolding decimal quote

  pub stringify : Json → Text
  stringify null = codes "null"
  stringify (bool true) = codes "true"
  stringify (bool false) = codes "false"
  stringify (num n) = decimal n
  stringify (neg n) = b'-' ∷ decimal (n + 1)
  stringify (str s) = quote s
  stringify (arr xs) = b'[' ∷ (stringify_items xs ++ b']' ∷ [])
  stringify (obj ms) = b'{' ∷ (stringify_members ms ++ b'}' ∷ [])

  stringify_items : Items → Text
  stringify_items nil = []
  stringify_items (item x nil) = stringify x
  stringify_items (item x (item y ys)) = stringify x ++ b',' ∷ stringify_items (item y ys)

  stringify_members : Members → Text
  stringify_members end = []
  stringify_members (member k v end) = quote k ++ b':' ∷ stringify v
  stringify_members (member k v (member l w ms)) =
      quote k ++ b':' ∷ (stringify v ++ b',' ∷ stringify_members (member l w ms))

unfoldable pub canonical_json : Json → Text
unfolding stringify normalize_for_json
canonical_json value = stringify (normalize_for_json value)

canonical_sorts :
    canonical_json (obj (member "b" (num 10) (member "a" (arr (item null (item (neg 0) nil))) end)))
    ≡ codes "{\"a\":[null,-1],\"b\":10}"
unfolding canonical_json
canonical_sorts = refl
