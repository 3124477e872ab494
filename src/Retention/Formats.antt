-- ===== src/Retention/Formats.antt =====
-- The patterns and `assert` functions of sdks/typescript/src/retention.ts. An assertion that throws
-- is `false`.
use Prim.Native.String.{String}
use veritio.Prelude.{
  ℕ, zero, suc, ◌+◌, ◌-◌, ◌*◌, ◌%◌, Option, none, some, [], ◌∷◌, Bool, true, false, not, ◌&&◌, ◌||◌,
  leb, ◌==◌, ◌===◌, same_or_null, if◌then◌else◌, every, length,
}
use veritio.Prelude.Text.{Text, codes, is_alphanumeric, is_sha256_hex}
use veritio.Retention.{RetentionSignature, CheckpointInput, DispositionInput}

abbrev pub max_safe_integer : ℕ
max_safe_integer = 9007199254740991

unfoldable pub is_id_character : ℕ → Bool
unfolding is_alphanumeric
is_id_character c = is_alphanumeric c || c == b'.' || c == b'_' || c == b':' || c == b'-'

-- /^[A-Za-z0-9._:-]{1,limit}$/
unfoldable pub is_id_up_to : ℕ → String → Bool
unfolding is_id_character
is_id_up_to limit s =
    let cs = codes s in leb 1 (length cs) && leb (length cs) limit && every is_id_character cs

unfoldable pub is_id : String → Bool
unfolding is_id_up_to
is_id s = is_id_up_to 128 s

unfoldable pub is_policy_reference : String → Bool
unfolding is_id_up_to
is_policy_reference s = is_id_up_to 256 s

is_base64_character : ℕ → Bool
unfolding is_alphanumeric
is_base64_character c = is_alphanumeric c || c == b'+' || c == b'/'

-- Whether the texts are `n` characters of base64 and then `==`.
is_base64_tail : ℕ → Text → Bool
unfolding is_base64_character
is_base64_tail zero [] = false
is_base64_tail zero (c ∷ cs) = c == b'=' && every (λ d. d == b'=') cs && length cs == 1
is_base64_tail (suc n) [] = false
is_base64_tail (suc n) (c ∷ cs) = is_base64_character c && is_base64_tail n cs

-- /^[A-Za-z0-9+/]{86}==$/
unfoldable pub is_base64_signature : String → Bool
unfolding is_base64_tail
is_base64_signature s = is_base64_tail 86 (codes s)

-- `assertSafeInteger`: a positive safe integer.
unfoldable pub is_positive_safe : ℕ → Bool
is_positive_safe n = leb 1 n && leb n max_safe_integer

unfoldable pub is_nullable_hash : Option String → Bool
unfolding is_sha256_hex
is_nullable_hash none = true
is_nullable_hash (some s) = is_sha256_hex s

char_at : Text → ℕ → ℕ
char_at [] i = 0
char_at (c ∷ cs) zero = c
char_at (c ∷ cs) (suc i) = char_at cs i

digit_at : Text → ℕ → Bool
unfolding char_at
digit_at cs i = let c = char_at cs i in leb b'0' c && leb c b'9'

-- The two digits at `i` as a number.
pair_at : Text → ℕ → ℕ
unfolding char_at
pair_at cs i = (char_at cs i - b'0') * 10 + (char_at cs (i + 1) - b'0')

days_in_month : ℕ → ℕ → ℕ
days_in_month year month =
    if month == 2
    then (if year % 4 == 0 && (not (year % 100 == 0) || year % 400 == 0) then 29 else 28)
    else if month == 4 || month == 6 || month == 9 || month == 11
    then 30
    else 31

-- `assertTimestamp`: YYYY-MM-DDThh:mm:ss.sssZ of a day that the calendar has, not in year 0000.
unfoldable pub is_timestamp : String → Bool
unfolding digit_at pair_at days_in_month
is_timestamp s =
    let cs = codes s in
    let year = pair_at cs 0 * 100 + pair_at cs 2 in
    let month = pair_at cs 5 in
    let day = pair_at cs 8 in
    length cs == 24
    && every (digit_at cs)
        (0 ∷ 1 ∷ 2 ∷ 3 ∷ 5 ∷ 6 ∷ 8 ∷ 9 ∷ 11 ∷ 12 ∷ 14 ∷ 15 ∷ 17 ∷ 18 ∷ 20 ∷ 21 ∷ 22 ∷ [])
    && (char_at cs 4 == b'-' && char_at cs 7 == b'-' && char_at cs 10 == b'T')
    && (char_at cs 13 == b':' && char_at cs 16 == b':' && char_at cs 19 == b'.')
    && char_at cs 23 == b'Z'
    && (leb 1 month && leb month 12 && leb 1 day && leb day (days_in_month year month))
    && (leb (pair_at cs 11) 23 && leb (pair_at cs 14) 59 && leb (pair_at cs 17) 59)
    && leb 1 year

-- The rule that epoch one begins at genesis and later epochs link what came before.
unfoldable pub links_epoch : CheckpointInput → Bool
links_epoch i =
    if i.epoch == 1
    then i.from_sequence == 1
      && same_or_null i.from_previous_hash none
      && same_or_null i.previous_checkpoint_hash none
    else not (same_or_null i.from_previous_hash none)
      && not (same_or_null i.previous_checkpoint_hash none)

-- The inclusive range is ordered and as long as the record count.
unfoldable pub has_exact_range : CheckpointInput → Bool
has_exact_range i =
    leb i.from_sequence i.through_sequence
    && i.record_count == i.through_sequence - i.from_sequence + 1

unfoldable pub has_checkpoint_fields : CheckpointInput → Bool
unfolding is_id is_positive_safe is_sha256_hex is_nullable_hash is_timestamp
has_checkpoint_fields i =
    is_id i.checkpoint_id
    && is_id i.tenant_id
    && i.chain_kind === "audit"
    && is_positive_safe i.epoch
    && is_positive_safe i.from_sequence
    && is_positive_safe i.through_sequence
    && is_positive_safe i.record_count
    && is_sha256_hex i.through_hash
    && is_sha256_hex i.archive_root_hash
    && is_nullable_hash i.from_previous_hash
    && is_nullable_hash i.previous_checkpoint_hash
    && is_timestamp i.created_at
    && is_nullable_hash i.fingerprint

unfoldable pub is_checkpoint_input : CheckpointInput → Bool
unfolding has_checkpoint_fields has_exact_range links_epoch
is_checkpoint_input i = has_checkpoint_fields i && (has_exact_range i && links_epoch i)

unfoldable pub is_disposition_input : DispositionInput → Bool
unfolding is_id is_positive_safe is_sha256_hex is_nullable_hash is_timestamp is_policy_reference
is_disposition_input i =
    is_id i.disposition_id
    && is_id i.tenant_id
    && i.chain_kind === "audit"
    && is_sha256_hex i.checkpoint_hash
    && is_positive_safe i.from_sequence
    && is_positive_safe i.through_sequence
    && leb i.from_sequence i.through_sequence
    && is_sha256_hex i.archive_root_hash
    && is_policy_reference i.policy_reference
    && is_timestamp i.disposed_at
    && is_nullable_hash i.fingerprint

-- A fingerprint and a signature appear together, and agree.
unfoldable pub is_signature_pair : Option String → Option RetentionSignature → Bool
unfolding is_sha256_hex is_base64_signature
is_signature_pair fingerprint none = elim fingerprint [ none ↦ true | some f ↦ f === "" ]
is_signature_pair fingerprint (some s) =
    not (same_or_null fingerprint none)
    && s.algorithm === "ed25519"
    && is_sha256_hex s.public_key_fingerprint
    && same_or_null (some s.public_key_fingerprint) fingerprint
    && is_base64_signature s.signature
