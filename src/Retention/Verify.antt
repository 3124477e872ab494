-- ===== src/Retention/Verify.antt =====
-- The verifiers of sdks/typescript/src/retention.ts. `Platform` is what they take from node: the
-- digests of texts and of bytes, and the bytes of a base64 text. A signature verifier that throws
-- answers `none`.
use veritio.Prelude.{
  ℕ, ◌+◌, String, Option, none, some, List, [], ◌∷◌, Bool, true, false, not, ◌&&◌, ◌==◌, ◌===◌,
  same_or_null, if◌then◌else◌,
}
use veritio.Prelude.Text.{Text, codes, is_sha256_hex}
use veritio.Prelude.Results.{Result, ok, throws, require, ◌>>◌}
use veritio.Protocol.{AuditRecord, truthy, tenant_of, sha256_algorithm, json_v1, hash_audit_record}
use veritio.Retention.{
  RetentionSignature, Checkpoint, Disposition, SignatureStatus, valid, invalid, skipped, absent,
  RetentionReason, invalid_checkpoint, invalid_disposition, unsupported_protocol, hash_mismatch,
  signature_fingerprint_mismatch, signature_invalid, signature_required, tenant_mismatch,
  chain_kind_mismatch, epoch_mismatch, range_mismatch, previous_checkpoint_hash_mismatch,
  missing_tenant_scope, unsupported_hash_algorithm, unsupported_canonicalization, sequence_mismatch,
  previous_hash_mismatch, record_hash_mismatch, checkpoint_mismatch, RetentionResult, accepted,
  refused,
}
use veritio.Retention.Formats.{is_checkpoint_input, is_disposition_input, is_base64_signature}
use veritio.Retention.Payloads.{
  checkpoint_type, disposition_type, schema_v1, provider_delete, hash_retention_checkpoint,
  hash_retention_disposition,
}

abbrev pub Bytes : Type 0
Bytes = List ℕ

pub record Platform : Type 0 where
  pub sha256 : Text → String
  pub sha256_bytes : Bytes → String
  pub from_base64 : String → Bytes

pub record VerificationOptions : Type 0 where
  pub trusted_public_key : Option Bytes
  pub require_signature : Bool
  pub signature_verifier : Option (Bytes → Bytes → Text → Option Bool)

abbrev pub no_options : VerificationOptions
no_options = record {
  trusted_public_key = none;
  require_signature = false;
  signature_verifier = none;
}

pub record SignatureVerdict : Type 0 where
  pub status : SignatureStatus
  pub reason : Option RetentionReason

abbrev pub verdict : SignatureStatus → Option RetentionReason → SignatureVerdict
verdict status reason = record { status = status; reason = reason }

abbrev pub answer : Option Bool → SignatureVerdict
answer (some true) = verdict valid none
answer (some false) = verdict invalid (some signature_invalid)
answer none = verdict invalid (some signature_invalid)

module _ (platform : Platform) where
  open platform use {sha256, sha256_bytes, from_base64}

  -- Both a trusted key and a verifier are needed to check a well-formed signature.
  unfoldable pub check_signature :
      VerificationOptions → String → RetentionSignature → String → SignatureVerdict
  check_signature options fingerprint signature hash = elim options.trusted_public_key [
    | none ↦ verdict skipped (if options.require_signature then some signature_required else none)
    | some key ↦ elim options.signature_verifier [
      | none ↦ verdict skipped (if options.require_signature then some signature_required else none)
      | some verify ↦
          if sha256_bytes key === fingerprint
          then answer (verify key (from_base64 signature.signature) (codes hash))
          else verdict invalid (some signature_fingerprint_mismatch)
    ]
  ]

  unfoldable pub verify_detached_signature :
      VerificationOptions → Option String → Option RetentionSignature → String → SignatureVerdict
  unfolding check_signature
  verify_detached_signature options none none hash =
      verdict absent (if options.require_signature then some signature_required else none)
  verify_detached_signature options none (some s) hash =
      verdict invalid (some signature_fingerprint_mismatch)
  verify_detached_signature options (some f) none hash =
      verdict invalid (some signature_fingerprint_mismatch)
  verify_detached_signature options (some f) (some s) hash =
      if not (s.public_key_fingerprint === f)
      then verdict invalid (some signature_fingerprint_mismatch)
      else elim s.other_keys [
        | k ∷ ks ↦ verdict invalid (some signature_invalid)
        | [] ↦
            if s.algorithm === "ed25519" && is_base64_signature s.signature
            then check_signature options f s hash
            else verdict invalid (some signature_invalid)
      ]

  abbrev pub conclude : ℕ → SignatureVerdict → RetentionResult
  conclude index v = elim v.reason [
    | none ↦ accepted v.status
    | some reason ↦ refused index reason v.status
  ]

  abbrev pub is_checkpoint_protocol : Checkpoint → Bool
  is_checkpoint_protocol c =
      c.record_type === checkpoint_type
      && c.schema_version === schema_v1
      && c.canonicalization === json_v1
      && c.hash_algorithm === sha256_algorithm

  -- The gates before the signature: shape, protocol, input rules, hash.
  unfoldable pub checkpoint_gates : Checkpoint → Result RetentionReason (Unit {0})
  checkpoint_gates c = do
    elim c.other_keys [ [] ↦ ok tt | k ∷ ks ↦ throws invalid_checkpoint ]
    require (is_checkpoint_protocol c) unsupported_protocol
    require (is_checkpoint_input c.input) invalid_checkpoint
    require (is_sha256_hex c.hash && c.hash === hash_retention_checkpoint sha256 c) hash_mismatch

  unfoldable pub verify_checkpoint_at : Checkpoint → VerificationOptions → ℕ → RetentionResult
  unfolding checkpoint_gates
  verify_checkpoint_at c options index = elim (checkpoint_gates c) [
    | throws reason ↦ refused index reason absent
    | ok _ ↦
        conclude index (verify_detached_signature options (truthy c.fingerprint) c.signature c.hash)
  ]

  unfoldable pub verify_retention_checkpoint : Checkpoint → VerificationOptions → RetentionResult
  unfolding verify_checkpoint_at
  verify_retention_checkpoint c options = verify_checkpoint_at c options 0

  abbrev pub is_disposition_protocol : Disposition → Bool
  is_disposition_protocol d =
      d.record_type === disposition_type
      && d.schema_version === schema_v1
      && d.method === provider_delete
      && d.canonicalization === json_v1
      && d.hash_algorithm === sha256_algorithm

  unfoldable pub disposition_gates : Disposition → Result RetentionReason (Unit {0})
  disposition_gates d = do
    elim d.other_keys [ [] ↦ ok tt | k ∷ ks ↦ throws invalid_disposition ]
    require (is_disposition_protocol d) unsupported_protocol
    require (is_disposition_input d.input) invalid_disposition
    require (is_sha256_hex d.hash && d.hash === hash_retention_disposition sha256 d) hash_mismatch

  unfoldable pub matches_checkpoint : Disposition → Checkpoint → Bool
  matches_checkpoint d c =
      d.tenant_id === c.tenant_id
      && d.chain_kind === c.chain_kind
      && d.checkpoint_hash === c.hash
      && d.from_sequence == c.from_sequence
      && d.through_sequence == c.through_sequence
      && d.archive_root_hash === c.archive_root_hash

  abbrev pub bind_to_checkpoint : Disposition → Checkpoint → SignatureVerdict → RetentionResult
  bind_to_checkpoint d c v = elim v.reason [
    | some reason ↦ refused 0 reason v.status
    | none ↦
        if matches_checkpoint d c then accepted v.status else refused 0 checkpoint_mismatch v.status
  ]

  unfoldable pub verify_retention_disposition :
      Disposition → Checkpoint → VerificationOptions → RetentionResult
  unfolding verify_retention_checkpoint disposition_gates matches_checkpoint
  verify_retention_disposition d c options =
      elim (verify_retention_checkpoint c (record options { require_signature = false })) [
        | refused index reason status ↦ refused index reason status
        | accepted _ ↦ elim (disposition_gates d) [
          | throws reason ↦ refused 0 reason absent
          | ok _ ↦
              bind_to_checkpoint d c
                (verify_detached_signature options (truthy d.fingerprint) d.signature d.hash)
        ]
      ]

  abbrev pub combine_signature_status : SignatureStatus → SignatureStatus → SignatureStatus
  combine_signature_status invalid _ = invalid
  combine_signature_status skipped invalid = invalid
  combine_signature_status skipped _ = skipped
  combine_signature_status absent invalid = invalid
  combine_signature_status absent skipped = skipped
  combine_signature_status absent _ = absent
  combine_signature_status valid next = next

  -- The tests of a checkpoint against its index and, past the first, its predecessor.
  unfoldable pub link_checkpoint :
      ℕ → Option Checkpoint → Checkpoint → Result RetentionReason (Unit {0})
  link_checkpoint index none c = require (c.epoch == index + 1) epoch_mismatch
  link_checkpoint index (some p) c = do
    require (c.epoch == index + 1) epoch_mismatch
    require (c.tenant_id === p.tenant_id) tenant_mismatch
    require (c.chain_kind === p.chain_kind) chain_kind_mismatch
    require
        (c.from_sequence == p.through_sequence + 1
          && same_or_null c.from_previous_hash (some p.through_hash))
        range_mismatch
    require (same_or_null c.previous_checkpoint_hash (some p.hash))
        previous_checkpoint_hash_mismatch

  unfoldable pub verify_chain_from :
      VerificationOptions
      → ℕ
      → Option Checkpoint
      → SignatureStatus
      → List Checkpoint
      → RetentionResult
  verify_chain_from options index previous status [] = accepted status
  verify_chain_from options index previous status (c ∷ cs) =
      elim (verify_checkpoint_at c options index) [
        | refused i reason next ↦ refused i reason (combine_signature_status status next)
        | accepted next ↦ elim (link_checkpoint index previous c) [
          | throws reason ↦ refused index reason (combine_signature_status status next)
          | ok _ ↦
              verify_chain_from options (index + 1) (some c) (combine_signature_status status next)
                cs
        ]
      ]

  unfoldable pub verify_retention_checkpoint_chain :
      List Checkpoint → VerificationOptions → RetentionResult
  unfolding verify_chain_from
  verify_retention_checkpoint_chain [] options = accepted absent
  verify_retention_checkpoint_chain (c ∷ cs) options =
      verify_chain_from options 0 none valid (c ∷ cs)

  abbrev pub scoped_to : String → Option String → Result RetentionReason (Unit {0})
  scoped_to tenant none = throws missing_tenant_scope
  scoped_to tenant (some t) = require (t === tenant) tenant_mismatch

  -- One retained record after the sequence number and the hash before it.
  unfoldable pub verify_retained :
      String → ℕ → String → AuditRecord → Result RetentionReason (Unit {0})
  verify_retained tenant sequence previous_hash r = do
    scoped_to tenant (truthy (tenant_of r.event.scope))
    require (r.hash_algorithm === sha256_algorithm) unsupported_hash_algorithm
    require (r.canonicalization === json_v1) unsupported_canonicalization
    require (r.sequence == sequence + 1) sequence_mismatch
    require (same_or_null r.previous_hash (some previous_hash)) previous_hash_mismatch
    require (r.hash === hash_audit_record sha256 r) record_hash_mismatch

  unfoldable pub verify_retained_from :
      String → SignatureStatus → ℕ → ℕ → String → List AuditRecord → RetentionResult
  verify_retained_from tenant status index sequence previous_hash [] = accepted status
  verify_retained_from tenant status index sequence previous_hash (r ∷ rs) =
      elim (verify_retained tenant sequence previous_hash r) [
        | throws reason ↦ refused index reason status
        | ok _ ↦ verify_retained_from tenant status (index + 1) r.sequence r.hash rs
      ]

  unfoldable pub verify_audit_records_from_checkpoint :
      Checkpoint → List AuditRecord → VerificationOptions → RetentionResult
  unfolding verify_retention_checkpoint verify_retained_from
  verify_audit_records_from_checkpoint c records options =
      elim (verify_retention_checkpoint c options) [
        | refused index reason status ↦ refused index reason status
        | accepted status ↦
            verify_retained_from c.tenant_id status 0 c.through_sequence c.through_hash records
      ]
