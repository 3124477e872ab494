-- ===== src/Creation/Redact.antt =====
-- The redaction of metadata in sdks/typescript/src/index.ts: `redactMetadata`, `redactAny` and
-- `sanitizeDigestEnvelope` on JSON values.
use veritio.Prelude.{
  ◌+◌, String, Option, none, some, List, [], ◌∷◌, Bool, true, false, not, ◌&&◌, ◌||◌, leb, ◌==◌,
  ◌===◌, if◌then◌else◌, any,
}
use veritio.Prelude.Text.{Text, codes, is_blank}
use veritio.Json.{Json, Items, Members, str, arr, obj, nil, item, end, member, field, place}
use veritio.Commit.{is_sha256_digest}

-- The letters of a text without their case.
fold_case : Text → Text
fold_case [] = []
fold_case (c ∷ cs) = (if leb 65 c && leb c 90 then c + 32 else c) ∷ fold_case cs

starts_with : Text → Text → Bool
starts_with [] text = true
starts_with (w ∷ ws) [] = false
starts_with (w ∷ ws) (c ∷ cs) = w == c && starts_with ws cs

contains : Text → Text → Bool
unfolding starts_with
contains word [] = starts_with word []
contains word (c ∷ cs) = starts_with word (c ∷ cs) || contains word cs

abbrev sensitive_words : List Text
sensitive_words =
    codes "password"
    ∷ (codes "secret"
        ∷ (codes "token"
            ∷ (codes "apikey"
                ∷ (codes "api_key"
                    ∷ (codes "api-key"
                        ∷ (codes "authorization"
                            ∷ (codes "email" ∷ (codes "phone" ∷ (codes "ssn" ∷ [])))))))))

-- /(password|secret|token|api[_-]?key|authorization|email|phone|ssn)/i
unfoldable pub is_sensitive_key : String → Bool
unfolding fold_case contains
is_sensitive_key key =
    let text = fold_case (codes key) in any (λ word. contains word text) sensitive_words

-- `Object.hasOwn(envelope, key)`
abbrev has_own : Json → String → Bool
has_own value key = elim (field value key) [ none ↦ false | some v ↦ true ]

-- A field that is a string.
abbrev pub string_field : Json → String → Option String
string_field value key = elim (field value key) [ some (str s) ↦ some s | _ ↦ none ]

unfoldable pub is_capture_mode : String → Bool
is_capture_mode mode =
    mode === "content_digest"
    || mode === "randomized_digest"
    || mode === "reference"
    || mode === "redact"
    || mode === "encrypt"

-- The fields that an envelope may have beside its digest.
unfoldable pub has_other_fields : Json → Bool
has_other_fields value =
    has_own value "canonicalization"
    || has_own value "schemaRef"
    || has_own value "fieldSetRef"
    || has_own value "fields"

abbrev pub keyed_envelope : String → Option String → Option Json
keyed_envelope digest none = none
keyed_envelope digest (some version) =
    if is_blank version
    then none
    else some (
        obj (
          member "algorithm" (str "hmac-sha256")
            (member "digest" (str digest) (member "keyVersion" (str version) end))))

abbrev pub capture_envelope : String → Option String → Option Json
capture_envelope digest none = none
capture_envelope digest (some mode) =
    if is_capture_mode mode
    then some (obj (member "captureMode" (str mode) (member "digest" (str digest) end)))
    else none

abbrev pub is_algorithm : Option String → String → Bool
is_algorithm none name = false
is_algorithm (some a) name = a === name

-- The envelope of a valid digest: by its algorithm, or by its capture mode.
unfoldable pub envelope_of : Json → String → Option Json
envelope_of value digest =
    if is_algorithm (string_field value "algorithm") "hmac-sha256"
    then keyed_envelope digest (string_field value "keyVersion")
    else if is_algorithm (string_field value "algorithm") "sha256"
    then some (obj (member "algorithm" (str "sha256") (member "digest" (str digest) end)))
    else capture_envelope digest (string_field value "captureMode")

unfoldable pub sanitize_digest_envelope : Json → Option Json
sanitize_digest_envelope (obj ms) = elim (string_field (obj ms) "digest") [
  | none ↦ none
  | some digest ↦
      if not (is_sha256_digest digest)
      then none
      else if has_other_fields (obj ms)
      then none
      else envelope_of (obj ms) digest
]
sanitize_digest_envelope _ = none

abbrev pub or_value : Json → Option Json → Json
or_value value none = value
or_value value (some envelope) = envelope

-- A value under the key: hidden where the key is sensitive.
unfoldable pub under_key : String → Json → Json → Json
under_key key value plain =
    if is_sensitive_key key
    then or_value (str "[redacted]") (sanitize_digest_envelope value)
    else plain

unfoldable mutual
  unfolding under_key

  pub redact_any : String → Json → Json
  redact_any key (arr xs) = under_key key (arr xs) (arr (redact_items key xs))
  redact_any key (obj ms) =
      under_key key (obj ms)
        (or_value (obj (redact_members ms)) (sanitize_digest_envelope (obj ms)))
  redact_any key value = under_key key value value

  -- The items of a list stand under its key.
  pub redact_items : String → Items → Items
  redact_items key nil = nil
  redact_items key (item x xs) = item (redact_any key x) (redact_items key xs)

  pub redact_members : Members → Members
  redact_members end = end
  redact_members (member k v ms) = place k (redact_any k v) (redact_members ms)

unfoldable pub redact_metadata : Json → Json
redact_metadata value = redact_any "" value
