-- ===== src/Retention/Payloads.antt =====
-- What checkpoints and receipts hash, and how they are made: `checkpointHashPayload`,
-- `dispositionHashPayload`, `hashRetention*` and `createRetention*` of
-- sdks/typescript/src/retention.ts.
use veritio.Prelude.{String, Option, none, some, [], if◌then◌else◌, ◌&&◌}
use veritio.Prelude.Text.{Text}
use veritio.Json.{Json, Members, null, num, str, obj, end, member, canonical_json}
use veritio.Protocol.{truthy, sha256_algorithm, json_v1}
use veritio.Retention.{
  RetentionSignature, CheckpointInput, Checkpoint, DispositionInput, Disposition,
}
use veritio.Retention.Formats.{is_checkpoint_input, is_disposition_input, is_signature_pair}

abbrev pub checkpoint_type : String
checkpoint_type = "retention.checkpoint"

abbrev pub disposition_type : String
disposition_type = "retention.disposition"

abbrev pub schema_v1 : String
schema_v1 = "1.0"

abbrev pub provider_delete : String
provider_delete = "provider-delete"

abbrev or_null : Option String → Json
or_null none = null
or_null (some s) = str s

abbrev when_truthy : Option String → Members → Members
when_truthy none rest = rest
when_truthy (some s) rest = member "signaturePublicKeyFingerprint" (str s) rest

unfoldable pub checkpoint_json : Checkpoint → Json
checkpoint_json c = obj (
    member "recordType" (str c.record_type) (
      member "schemaVersion" (str c.schema_version) (
        member "checkpointId" (str c.checkpoint_id) (
          member "tenantId" (str c.tenant_id) (
            member "chainKind" (str c.chain_kind) (
              member "epoch" (num c.epoch) (
                member "fromSequence" (num c.from_sequence) (
                  member "fromPreviousHash" (or_null c.from_previous_hash) (
                    member "throughSequence" (num c.through_sequence) (
                      member "throughHash" (str c.through_hash) (
                        member "recordCount" (num c.record_count) (
                          member "archiveRootHash" (str c.archive_root_hash) (
                            member "previousCheckpointHash" (or_null c.previous_checkpoint_hash) (
                              member "createdAt" (str c.created_at) (
                                member "canonicalization" (str c.canonicalization) (
                                  member "hashAlgorithm" (str c.hash_algorithm)
                                    (when_truthy (truthy c.fingerprint) end)))))))))))))))))

unfoldable pub disposition_json : Disposition → Json
disposition_json d = obj (
    member "recordType" (str d.record_type) (
      member "schemaVersion" (str d.schema_version) (
        member "dispositionId" (str d.disposition_id) (
          member "tenantId" (str d.tenant_id) (
            member "chainKind" (str d.chain_kind) (
              member "checkpointHash" (str d.checkpoint_hash) (
                member "fromSequence" (num d.from_sequence) (
                  member "throughSequence" (num d.through_sequence) (
                    member "archiveRootHash" (str d.archive_root_hash) (
                      member "method" (str d.method) (
                        member "policyReference" (str d.policy_reference) (
                          member "disposedAt" (str d.disposed_at) (
                            member "canonicalization" (str d.canonicalization) (
                              member "hashAlgorithm" (str d.hash_algorithm)
                                (when_truthy (truthy d.fingerprint) end)))))))))))))))

unfoldable pub normalize_signature : Option RetentionSignature → Option RetentionSignature
normalize_signature none = none
normalize_signature (some s) = some (record s { other_keys = [] })

module _ (sha256 : Text → String) where
  unfoldable pub hash_retention_checkpoint : Checkpoint → String
  hash_retention_checkpoint c = sha256 (canonical_json (checkpoint_json c))

  unfoldable pub hash_retention_disposition : Disposition → String
  hash_retention_disposition d = sha256 (canonical_json (disposition_json d))

  -- `checkpointUnsigned`, with an empty hash and no signature.
  abbrev pub checkpoint_unsigned : CheckpointInput → Checkpoint
  checkpoint_unsigned input = record {
    input = input;
    record_type = checkpoint_type;
    schema_version = schema_v1;
    canonicalization = json_v1;
    hash_algorithm = sha256_algorithm;
    hash = "";
    signature = none;
    other_keys = [];
  }

  abbrev pub disposition_unsigned : DispositionInput → Disposition
  disposition_unsigned input = record {
    input = input;
    record_type = disposition_type;
    schema_version = schema_v1;
    method = provider_delete;
    canonicalization = json_v1;
    hash_algorithm = sha256_algorithm;
    hash = "";
    signature = none;
    other_keys = [];
  }

  -- `none` where an assertion throws.
  unfoldable pub create_retention_checkpoint :
      CheckpointInput → Option RetentionSignature → Option Checkpoint
  unfolding normalize_signature
  create_retention_checkpoint input signature =
      let unsigned = checkpoint_unsigned input in
      if is_checkpoint_input input && is_signature_pair input.fingerprint signature
      then some (record unsigned {
        hash = hash_retention_checkpoint unsigned;
        signature = normalize_signature signature;
      })
      else none

  unfoldable pub create_retention_disposition :
      DispositionInput → Option RetentionSignature → Option Disposition
  unfolding normalize_signature
  create_retention_disposition input signature =
      let unsigned = disposition_unsigned input in
      if is_disposition_input input && is_signature_pair input.fingerprint signature
      then some (record unsigned {
        hash = hash_retention_disposition unsigned;
        signature = normalize_signature signature;
      })
      else none
