-- ===== src/Retention.antt =====
-- The audit-retention records of sdks/typescript/src/retention.ts: checkpoints of a compacted prefix
-- and receipts of its disposal. `other_keys` are the keys of an untrusted object that the protocol
-- does not know; a value that is no object at all, or a field of another JavaScript type, is left
-- out.
pub mod Formats
pub mod Payloads
pub mod Verify
pub mod Accepted
pub mod Created
pub mod Epochs
use veritio.Prelude.{ℕ, String, Option, List}

pub record RetentionSignature : Type 0 where
  pub algorithm : String
  pub public_key_fingerprint : String
  pub signature : String
  pub other_keys : List String

pub record CheckpointInput : Type 0 where
  pub checkpoint_id : String
  pub tenant_id : String
  pub chain_kind : String
  pub epoch : ℕ
  pub from_sequence : ℕ
  pub from_previous_hash : Option String
  pub through_sequence : ℕ
  pub through_hash : String
  pub record_count : ℕ
  pub archive_root_hash : String
  pub previous_checkpoint_hash : Option String
  pub created_at : String
  pub fingerprint : Option String

pub record Checkpoint : Type 0 where
  pub input : CheckpointInput
  pub open input use *
  pub record_type : String
  pub schema_version : String
  pub canonicalization : String
  pub hash_algorithm : String
  pub hash : String
  pub signature : Option RetentionSignature
  pub other_keys : List String

pub record DispositionInput : Type 0 where
  pub disposition_id : String
  pub tenant_id : String
  pub chain_kind : String
  pub checkpoint_hash : String
  pub from_sequence : ℕ
  pub through_sequence : ℕ
  pub archive_root_hash : String
  pub policy_reference : String
  pub disposed_at : String
  pub fingerprint : Option String

pub record Disposition : Type 0 where
  pub input : DispositionInput
  pub open input use *
  pub record_type : String
  pub schema_version : String
  pub method : String
  pub canonicalization : String
  pub hash_algorithm : String
  pub hash : String
  pub signature : Option RetentionSignature
  pub other_keys : List String

pub data SignatureStatus : Type 0 where
  valid invalid skipped absent : SignatureStatus

pub data RetentionReason : Type 0 where
  invalid_checkpoint invalid_disposition unsupported_protocol hash_mismatch : RetentionReason
  signature_fingerprint_mismatch signature_invalid signature_required : RetentionReason
  tenant_mismatch chain_kind_mismatch epoch_mismatch range_mismatch : RetentionReason
  previous_checkpoint_hash_mismatch missing_tenant_scope unsupported_hash_algorithm :
      RetentionReason
  unsupported_canonicalization sequence_mismatch previous_hash_mismatch : RetentionReason
  record_hash_mismatch checkpoint_mismatch : RetentionReason

pub data RetentionResult : Type 0 where
  accepted : SignatureStatus → RetentionResult
  refused : ℕ → RetentionReason → SignatureStatus → RetentionResult
