-- ===== src/Creation/Hidden.antt =====
-- What redaction guarantees of the metadata that sdks/typescript/src/index.ts hashes and stores: no value
-- under a sensitive key is left, at any depth, but for digests.
use veritio.Prelude.{
  ◌≡◌, refl, String, Option, none, some, true, false, ◌===◌, if◌then◌else◌, inl, inr, ◌⊎◌,
  Bool-cases, Option-cases, some-injective, sym, subst,
}
use veritio.Prelude.Text.{is_blank}
use veritio.Json.{
  Json, Items, Members, null, bool, num, neg, str, arr, obj, nil, item, end, member, key_le, place,
}
use veritio.Commit.{is_sha256_digest}
use veritio.Creation.Redact.{
  is_sensitive_key, string_field, is_capture_mode, is_algorithm, has_other_fields, keyed_envelope,
  capture_envelope, envelope_of, sanitize_digest_envelope, or_value, under_key, redact_any,
  redact_items, redact_members,
}

-- The objects that may stand for a value: a SHA-256 digest with its algorithm, or with the capture mode.
pub data IsEnvelope (v : Json) : Type 0 where
  keyed :
      (digest version : String)
      → is_sha256_digest digest ≡ true
      → v
        ≡ obj (
            member "algorithm"
              (str "hmac-sha256")
              (member "digest" (str digest) (member "keyVersion" (str version) end)))
      → IsEnvelope v
  plain :
      (digest : String)
      → is_sha256_digest digest ≡ true
      → v ≡ obj (member "algorithm" (str "sha256") (member "digest" (str digest) end))
      → IsEnvelope v
  captured :
      (digest mode : String)
      → is_sha256_digest digest ≡ true
      → is_capture_mode mode ≡ true
      → v ≡ obj (member "captureMode" (str mode) (member "digest" (str digest) end))
      → IsEnvelope v

abbrev pub IsHidden : Json → Type 0
IsHidden v = (v ≡ str "[redacted]") ⊎ IsEnvelope v

abbrev mutual
  -- Under every sensitive key, at any depth, stands nothing but the mark of redaction or an envelope.
  pub IsClean : String → Json → Type 0
  IsClean key (arr xs) = if is_sensitive_key key then IsHidden (arr xs) else AreClean key xs
  IsClean key (obj ms) =
      if is_sensitive_key key then IsHidden (obj ms) else (IsEnvelope (obj ms) ⊎ HasCleanMembers ms)
  IsClean key v = if is_sensitive_key key then IsHidden v else Unit

  pub AreClean : String → Items → Type 0
  AreClean key nil = Unit
  AreClean key (item x xs) = IsClean key x × AreClean key xs

  pub HasCleanMembers : Members → Type 0
  HasCleanMembers end = Unit
  HasCleanMembers (member k v ms) = IsClean k v × HasCleanMembers ms

hidden-IsClean :
    (key : String) (v : Json) → is_sensitive_key key ≡ true → IsHidden v → IsClean key v
hidden-IsClean key null sensitive h = rw sensitive h
hidden-IsClean key (bool b) sensitive h = rw sensitive h
hidden-IsClean key (num n) sensitive h = rw sensitive h
hidden-IsClean key (neg n) sensitive h = rw sensitive h
hidden-IsClean key (str s) sensitive h = rw sensitive h
hidden-IsClean key (arr xs) sensitive h = rw sensitive h
hidden-IsClean key (obj ms) sensitive h = rw sensitive h

place-HasCleanMembers :
    (key : String) (v : Json) (ms : Members)
    → IsClean key v
    → HasCleanMembers ms
    → HasCleanMembers (place key v ms)
unfolding place
place-HasCleanMembers key v end h k = elim (Bool-cases (key === "__proto__")) [
  | inl proto ↦ rw (proto, HasCleanMembers) tt
  | inr other ↦ rw (other, HasCleanMembers) (h, tt)
]
place-HasCleanMembers key v (member name w ms) h k = elim (Bool-cases (key === "__proto__")) [
  | inl proto ↦ rw (proto, HasCleanMembers) k
  | inr other ↦
      rw (other, HasCleanMembers)
        (elim (Bool-cases (key_le key name)) [
          | inl before ↦ rw (before, HasCleanMembers) (h, k)
          | inr after ↦ rw (after, HasCleanMembers) (k.0, place-HasCleanMembers key v ms h k.1)
        ])
]

keyed_envelope-IsEnvelope :
    (digest : String) (version : Option String) (e : Json)
    → is_sha256_digest digest ≡ true
    → keyed_envelope digest version ≡ some e
    → IsEnvelope e
keyed_envelope-IsEnvelope digest none e valid h = cc
keyed_envelope-IsEnvelope digest (some version) e valid h = elim (Bool-cases (is_blank version)) [
  | inl blank ↦ let no = rw blank at h in cc
  | inr filled ↦ keyed digest version valid (sym (some-injective (rw filled at h)))
]

capture_envelope-IsEnvelope :
    (digest : String) (mode : Option String) (e : Json)
    → is_sha256_digest digest ≡ true
    → capture_envelope digest mode ≡ some e
    → IsEnvelope e
capture_envelope-IsEnvelope digest none e valid h = cc
capture_envelope-IsEnvelope digest (some mode) e valid h =
    elim (Bool-cases (is_capture_mode mode)) [
      | inl known ↦ captured digest mode valid known (sym (some-injective (rw known at h)))
      | inr unknown ↦ let no = rw unknown at h in cc
    ]

envelope_of-IsEnvelope :
    (value : Json) (digest : String) (e : Json)
    → is_sha256_digest digest ≡ true
    → envelope_of value digest ≡ some e
    → IsEnvelope e
unfolding envelope_of
envelope_of-IsEnvelope value digest e valid h =
    elim (Bool-cases (is_algorithm (string_field value "algorithm") "hmac-sha256")) [
      | inl hmac ↦ keyed_envelope-IsEnvelope digest _ e valid (rw (hmac, envelope_of) at h)
      | inr other ↦
          let h1 = rw (other, envelope_of) at h in
          elim (Bool-cases (is_algorithm (string_field value "algorithm") "sha256")) [
            | inl sha ↦ plain digest valid (sym (some-injective (rw sha at h1)))
            | inr none' ↦ capture_envelope-IsEnvelope digest _ e valid (rw none' at h1)
          ]
    ]

sanitize-IsEnvelope : (v e : Json) → sanitize_digest_envelope v ≡ some e → IsEnvelope e
unfolding sanitize_digest_envelope
sanitize-IsEnvelope null e h = cc
sanitize-IsEnvelope (bool b) e h = cc
sanitize-IsEnvelope (num n) e h = cc
sanitize-IsEnvelope (neg n) e h = cc
sanitize-IsEnvelope (str s) e h = cc
sanitize-IsEnvelope (arr xs) e h = cc
sanitize-IsEnvelope (obj ms) e h = elim (Option-cases (string_field (obj ms) "digest")) [
  | inl missing ↦ let no = rw (missing, sanitize_digest_envelope) at h in cc
  | inr (digest, found) ↦
      let h1 = rw (found, sanitize_digest_envelope) at h in
      elim (Bool-cases (is_sha256_digest digest)) [
        | inr invalid ↦ let no = rw invalid at h1 in cc
        | inl valid ↦
            let h2 = rw valid at h1 in
            elim (Bool-cases (has_other_fields (obj ms))) [
              | inl more ↦ let no = rw more at h2 in cc
              | inr only ↦ envelope_of-IsEnvelope (obj ms) digest e valid (rw only at h2)
            ]
      ]
]

or_value-IsHidden : (v : Json) → IsHidden (or_value (str "[redacted]") (sanitize_digest_envelope v))
or_value-IsHidden v = elim (Option-cases (sanitize_digest_envelope v)) [
  | inl raw ↦ rw raw (inl refl)
  | inr (e, found) ↦ rw found (inr (sanitize-IsEnvelope v e found))
]

-- A value under its key is clean where it is clean under a key that is not sensitive.
under_key-IsClean :
    (key : String) (v shown : Json)
    → (is_sensitive_key key ≡ false → IsClean key shown)
    → IsClean key (under_key key v shown)
unfolding under_key
under_key-IsClean key v shown h = elim (Bool-cases (is_sensitive_key key)) [
  | inl sensitive ↦
      subst
        (λ x.
          IsClean key
            (if x then or_value (str "[redacted]") (sanitize_digest_envelope v) else shown))
        (sym sensitive) (hidden-IsClean key _ sensitive (or_value-IsHidden v))
  | inr open' ↦
      subst
        (λ x.
          IsClean key
            (if x then or_value (str "[redacted]") (sanitize_digest_envelope v) else shown))
        (sym open') (h open')
]

object-IsClean :
    (key : String) (v : Json) (ms : Members)
    → is_sensitive_key key ≡ false
    → HasCleanMembers ms
    → IsClean key (or_value (obj ms) (sanitize_digest_envelope v))
object-IsClean key v ms free h = elim (Option-cases (sanitize_digest_envelope v)) [
  | inl raw ↦ rw raw (rw free (inr h))
  | inr (e, found) ↦ rw found (go e (sanitize-IsEnvelope v e found))
]
  where
    go : (e : Json) → IsEnvelope e → IsClean key e
    go e (keyed digest version valid same) =
        rw same (rw free (inl (keyed digest version valid refl)))
    go e (plain digest valid same) = rw same (rw free (inl (plain digest valid refl)))
    go e (captured digest mode valid known same) =
        rw same (rw free (inl (captured digest mode valid known refl)))

mutual
  unfolding redact_any

  pub redact_any-IsClean : (key : String) (v : Json) → IsClean key (redact_any key v)
  redact_any-IsClean key null = under_key-IsClean key null null (λ free. rw free tt)
  redact_any-IsClean key (bool b) = under_key-IsClean key (bool b) (bool b) (λ free. rw free tt)
  redact_any-IsClean key (num n) = under_key-IsClean key (num n) (num n) (λ free. rw free tt)
  redact_any-IsClean key (neg n) = under_key-IsClean key (neg n) (neg n) (λ free. rw free tt)
  redact_any-IsClean key (str s) = under_key-IsClean key (str s) (str s) (λ free. rw free tt)
  redact_any-IsClean key (arr xs) =
      under_key-IsClean key (arr xs) (arr (redact_items key xs))
        (λ free. rw free (redact_items-AreClean key xs))
  redact_any-IsClean key (obj ms) =
      under_key-IsClean key (obj ms)
        (or_value (obj (redact_members ms)) (sanitize_digest_envelope (obj ms)))
        (λ free. object-IsClean key (obj ms) (redact_members ms) free (redact_members-HasClean ms))

  redact_items-AreClean : (key : String) (xs : Items) → AreClean key (redact_items key xs)
  redact_items-AreClean key nil = tt
  redact_items-AreClean key (item x xs) = (redact_any-IsClean key x, redact_items-AreClean key xs)

  redact_members-HasClean : (ms : Members) → HasCleanMembers (redact_members ms)
  redact_members-HasClean end = tt
  redact_members-HasClean (member k v ms) =
      place-HasCleanMembers k (redact_any k v) (redact_members ms) (redact_any-IsClean k v)
        (redact_members-HasClean ms)
