-- ===== src/Retention/Created.antt =====
-- `createRetentionCheckpoint` and `createRetentionDisposition` of
-- sdks/typescript/src/retention.ts, followed by the verifiers.
use veritio.Prelude.{
  ◌≡◌, refl, sym, String, Option, none, some, true, ◌&&◌, ◌===◌, ===_iff, ===_refl, same_or_null,
  arith, and-eq-true, Bool-cases, some-injective, inl, inr,
}
use veritio.Prelude.Text.{Text, is_empty, is_sha256_hex}
use veritio.Prelude.Results.{ok}
use veritio.Json.{canonical_json}
use veritio.Protocol.{truthy}
use veritio.Retention.{
  RetentionSignature, CheckpointInput, Checkpoint, DispositionInput, Disposition, SignatureStatus,
  skipped, absent, accepted,
}
use veritio.Retention.Formats.{
  is_checkpoint_input, is_disposition_input, is_signature_pair, is_base64_signature,
}
use veritio.Retention.Payloads.{
  checkpoint_json, disposition_json, hash_retention_checkpoint, hash_retention_disposition,
  normalize_signature, checkpoint_unsigned, disposition_unsigned, create_retention_checkpoint,
  create_retention_disposition,
}
use veritio.Retention.Verify.{
  Platform, no_options, verdict, check_signature, verify_detached_signature, checkpoint_gates,
  disposition_gates, verify_checkpoint_at, verify_retention_checkpoint, matches_checkpoint,
  verify_retention_disposition,
}

-- How a signature stands that no key was given for.
abbrev pub unchecked : Option RetentionSignature → SignatureStatus
unchecked none = absent
unchecked (some s) = skipped

hex-truthy : (s : String) → is_sha256_hex s ≡ true → truthy (some s) ≡ some s
unfolding truthy is_sha256_hex is_empty
hex-truthy String.[] h = cc
hex-truthy (String.◌∷◌ c cs) h = refl

-- A signature that goes with its fingerprint.
signed-facts :
    (f : String) (s : RetentionSignature)
    → is_signature_pair (some f) (some s) ≡ true
    → (s.algorithm === "ed25519" ≡ true)
      × (is_sha256_hex s.public_key_fingerprint ≡ true)
      × (s.public_key_fingerprint ≡ f)
      × (is_base64_signature s.signature ≡ true)
unfolding is_signature_pair same_or_null
signed-facts f s h = ground (arith, ===_iff s.public_key_fingerprint f)

empty-truthy : (f : String) → (f === "") ≡ true → truthy (some f) ≡ none
unfolding truthy is_empty
empty-truthy f h = rw ((===_iff f "").0 h)

truthy-none : truthy none ≡ none
unfolding truthy
truthy-none = refl

no_fingerprint : (s : RetentionSignature) → is_signature_pair none (some s) ≡ true → ⊥
unfolding is_signature_pair same_or_null
no_fingerprint s h = cc

module _ (platform : Platform) where
  open platform use {sha256}

  pair-unchecked :
      (fingerprint : Option String) (signature : Option RetentionSignature) (hash : String)
      → is_signature_pair fingerprint signature ≡ true
      → verify_detached_signature platform no_options
          (truthy fingerprint)
          (normalize_signature signature)
          hash
        ≡ verdict (unchecked signature) none
  unfolding is_signature_pair normalize_signature verify_detached_signature check_signature
  pair-unchecked none none hash h = rw truthy-none
  pair-unchecked (some f) none hash h = rw (empty-truthy f h)
  pair-unchecked none (some s) hash h = absurd (no_fingerprint s h)
  pair-unchecked (some f) (some s) hash h =
      let (algorithm, hex, same, base64) = signed-facts f s h in
      rw (hex-truthy f (rw same at hex), same, ===_refl f, algorithm, base64)

  create_checkpoint-eq-some :
      (input : CheckpointInput) (signature : Option RetentionSignature) (c : Checkpoint)
      → create_retention_checkpoint sha256 input signature ≡ some c
      → (is_checkpoint_input input ≡ true)
        × (is_signature_pair input.fingerprint signature ≡ true)
        × (c ≡ record (checkpoint_unsigned sha256 input) {
          hash = hash_retention_checkpoint sha256 (checkpoint_unsigned sha256 input);
          signature = normalize_signature signature;
        })
  unfolding create_retention_checkpoint
  create_checkpoint-eq-some input signature c h =
      elim (Bool-cases
        (is_checkpoint_input input && is_signature_pair input.fingerprint signature)) [
          | inl fits ↦
              let (one, two) = and-eq-true _ _ fits in
              (one, two, sym (some-injective (rw fits at h)))
          | inr no_fit ↦ let no = rw no_fit at h in cc
        ]

  create_disposition-eq-some :
      (input : DispositionInput) (signature : Option RetentionSignature) (d : Disposition)
      → create_retention_disposition sha256 input signature ≡ some d
      → (is_disposition_input input ≡ true)
        × (is_signature_pair input.fingerprint signature ≡ true)
        × (d ≡ record (disposition_unsigned sha256 input) {
          hash = hash_retention_disposition sha256 (disposition_unsigned sha256 input);
          signature = normalize_signature signature;
        })
  unfolding create_retention_disposition
  create_disposition-eq-some input signature d h =
      elim (Bool-cases
        (is_disposition_input input && is_signature_pair input.fingerprint signature)) [
          | inl fits ↦
              let (one, two) = and-eq-true _ _ fits in
              (one, two, sym (some-injective (rw fits at h)))
          | inr no_fit ↦ let no = rw no_fit at h in cc
        ]

  sealed_checkpoint : CheckpointInput → Option RetentionSignature → Checkpoint
  sealed_checkpoint input signature = record (checkpoint_unsigned sha256 input) {
    hash = hash_retention_checkpoint sha256 (checkpoint_unsigned sha256 input);
    signature = normalize_signature signature;
  }

  hash-sealed :
      (input : CheckpointInput) (signature : Option RetentionSignature)
      → (hash_retention_checkpoint sha256 (checkpoint_unsigned sha256 input)
          === hash_retention_checkpoint sha256 (sealed_checkpoint input signature))
        ≡ true
  unfolding hash_retention_checkpoint checkpoint_json sealed_checkpoint
  hash-sealed input signature =
      ===_refl (hash_retention_checkpoint sha256 (checkpoint_unsigned sha256 input))

  sealed_disposition : DispositionInput → Option RetentionSignature → Disposition
  sealed_disposition input signature = record (disposition_unsigned sha256 input) {
    hash = hash_retention_disposition sha256 (disposition_unsigned sha256 input);
    signature = normalize_signature signature;
  }

  hash-sealed_disposition :
      (input : DispositionInput) (signature : Option RetentionSignature)
      → (hash_retention_disposition sha256 (disposition_unsigned sha256 input)
          === hash_retention_disposition sha256 (sealed_disposition input signature))
        ≡ true
  unfolding hash_retention_disposition disposition_json sealed_disposition
  hash-sealed_disposition input signature =
      ===_refl (hash_retention_disposition sha256 (disposition_unsigned sha256 input))

  module _ (digest_hex : (t : Text) → is_sha256_hex (sha256 t) ≡ true) where
    hash_is_hex :
        (input : CheckpointInput)
        → is_sha256_hex (hash_retention_checkpoint sha256 (checkpoint_unsigned sha256 input)) ≡ true
    unfolding hash_retention_checkpoint
    hash_is_hex input =
        digest_hex (canonical_json (checkpoint_json (checkpoint_unsigned sha256 input)))

    sealed_gates :
        (input : CheckpointInput) (signature : Option RetentionSignature)
        → is_checkpoint_input input ≡ true
        → checkpoint_gates platform (sealed_checkpoint input signature) ≡ ok tt
    unfolding checkpoint_gates sealed_checkpoint
    sealed_gates input signature fields =
        rw (fields, hash_is_hex input, hash-sealed input signature)

    disposition_hash_is_hex :
        (input : DispositionInput)
        → is_sha256_hex (hash_retention_disposition sha256 (disposition_unsigned sha256 input))
          ≡ true
    unfolding hash_retention_disposition
    disposition_hash_is_hex input =
        digest_hex (canonical_json (disposition_json (disposition_unsigned sha256 input)))

    sealed_disposition_gates :
        (input : DispositionInput) (signature : Option RetentionSignature)
        → is_disposition_input input ≡ true
        → disposition_gates platform (sealed_disposition input signature) ≡ ok tt
    unfolding disposition_gates sealed_disposition
    sealed_disposition_gates input signature fields =
        rw (fields, disposition_hash_is_hex input, hash-sealed_disposition input signature)

    sealed_checkpoint-accepted :
        (input : CheckpointInput) (signature : Option RetentionSignature)
        → is_checkpoint_input input ≡ true
        → is_signature_pair input.fingerprint signature ≡ true
        → verify_retention_checkpoint platform (sealed_checkpoint input signature) no_options
          ≡ accepted (unchecked signature)
    unfolding verify_retention_checkpoint sealed_checkpoint
    sealed_checkpoint-accepted input signature fields paired =
        let gates : checkpoint_gates platform (sealed_checkpoint input signature) ≡ ok tt =
          sealed_gates input signature fields in
        rw (
          gates,
          verify_checkpoint_at,
          pair-unchecked input.fingerprint signature
              (hash_retention_checkpoint sha256 (checkpoint_unsigned sha256 input)) paired,
        )

    sealed_disposition-accepted :
        (input : DispositionInput) (signature : Option RetentionSignature) (checkpoint : Checkpoint)
        (status : SignatureStatus)
        → is_disposition_input input ≡ true
        → is_signature_pair input.fingerprint signature ≡ true
        → verify_retention_checkpoint platform checkpoint no_options ≡ accepted status
        → matches_checkpoint platform (sealed_disposition input signature) checkpoint ≡ true
        → verify_retention_disposition platform
            (sealed_disposition input signature)
            checkpoint
            no_options
          ≡ accepted (unchecked signature)
    unfolding verify_retention_disposition sealed_disposition
    sealed_disposition-accepted input signature checkpoint status fields paired accepts matches =
        let gates : disposition_gates platform (sealed_disposition input signature) ≡ ok tt =
          sealed_disposition_gates input signature fields in
        rw (
          accepts,
          gates,
          verify_retention_disposition,
          pair-unchecked input.fingerprint signature
              (hash_retention_disposition sha256 (disposition_unsigned sha256 input)) paired,
          matches,
        )

    -- A checkpoint or a receipt that `createRetentionCheckpoint` or `createRetentionDisposition`
    -- returns is accepted by its verifier without options, as unsigned or with a signature that is
    -- not checked; a receipt with any accepted checkpoint that it matches. The digest is in hex.
    pub created_verifies :
        (input : CheckpointInput) (signature : Option RetentionSignature) (c : Checkpoint)
        (status : SignatureStatus) (receipt_input : DispositionInput)
        (receipt_signature : Option RetentionSignature) (checkpoint : Checkpoint) (d : Disposition)
        → create_retention_checkpoint sha256 input signature ≡ some c
        → create_retention_disposition sha256 receipt_input receipt_signature ≡ some d
        → verify_retention_checkpoint platform checkpoint no_options ≡ accepted status
        → matches_checkpoint platform d checkpoint ≡ true
        → (verify_retention_checkpoint platform c no_options ≡ accepted (unchecked signature))
          × (verify_retention_disposition platform d checkpoint no_options
              ≡ accepted (unchecked receipt_signature))
    unfolding sealed_checkpoint sealed_disposition
    created_verifies input signature c status receipt_input receipt_signature checkpoint d hc hd
          accepts matches =
        let (fields, paired, made) = create_checkpoint-eq-some input signature c hc in
        let (fields', paired', made') =
          create_disposition-eq-some receipt_input receipt_signature d hd in
        (
          rw made (sealed_checkpoint-accepted input signature fields paired),
          rw made' (
              sealed_disposition-accepted receipt_input receipt_signature checkpoint status fields'
                paired' accepts (rw made' at matches)),
        )
