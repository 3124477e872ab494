-- ===== src/Store.antt =====
-- `MemoryAuditStore` of sdks/typescript/src/index.ts. A method takes the store and returns its value
-- with the next store, or throws; every method throws before its first write, so a throw leaves the
-- store as it was. None of them awaits, so each is one step. The clones that the code takes are the
-- values themselves.
pub mod Append
pub mod Compact
pub mod Dispose
pub mod Tenant
pub mod Crop
pub mod Outcomes
pub mod Invariant
pub mod Admission
pub mod Compaction
pub mod Settlement
pub mod Moves
pub mod History
pub mod Audit
pub mod Partition
pub mod Untouched
pub mod Isolation
pub mod Progress
pub mod Keys
pub mod Replay
use veritio.Prelude.{
  ℕ, ◌+◌, String, Option, none, some, List, [], ◌∷◌, Bool, true, false, not, ◌&&◌, leb, ◌==◌,
  same_or_null, if◌then◌else◌, keep,
}
use veritio.Prelude.Text.{is_blank, is_sha256_hex}
use veritio.Prelude.Dict.{Dict, get}
use veritio.Prelude.Results.{Result, ok, throws, require, ◌>>=◌, ◌>>◌}
use veritio.Protocol.{AuditRecord, tenant_of}
use veritio.Retention.{Checkpoint, Disposition, RetentionReason}
use veritio.Retention.Formats.{max_safe_integer}

-- One constructor for each `TypeError`.
pub data StoreError : Type 0 where
  tenant_required idempotency_key_required idempotency_conflict : StoreError
  idempotency_history_disposed stale_previous_hash invalid_chain_state : StoreError
  invalid_fence fence_mismatch fence_exhausted chain_state_mismatch : StoreError
  invalid_checkpoint : RetentionReason → StoreError
  checkpoint_scope_mismatch checkpoint_prefix_mismatch checkpoint_exceeds_tip : StoreError
  not_intact_prefix integrity_failed through_hash_mismatch checkpoint_hash_required : StoreError
  invalid_attempt binding_mismatch checkpoint_not_found already_confirmed : StoreError
  attempt_conflict attempt_id_required attempt_mismatch attempt_fence_mismatch : StoreError
  conflicting_receipt attempt_not_pending : StoreError
  invalid_receipt : RetentionReason → StoreError

pub record AuditChainState : Type 0 where
  pub authoritative_tip_sequence : ℕ
  pub authoritative_tip_hash : Option String
  pub minimum_retained_sequence : ℕ
  pub latest_checkpoint_hash : Option String
  pub retention_policy_fence : ℕ

-- `stored` is absent once the record was compacted away.
pub record IdempotencyEntry : Type 0 where
  pub event_canonical_hash : String
  pub original_sequence : ℕ
  pub original_record_hash : String
  pub stored : Option AuditRecord

pub data AttemptStatus : Type 0 where
  pending disposed : AttemptStatus

-- `other_keys` are the keys of the caller's object that the protocol does not know.
pub record DispositionAttempt : Type 0 where
  pub attempt_id : String
  pub checkpoint_hash : String
  pub policy_fence : ℕ
  pub status : AttemptStatus
  pub other_keys : List String

pub record Store : Type 0 where
  pub records : List AuditRecord
  pub idempotency : Dict IdempotencyEntry
  pub chain_states : Dict AuditChainState
  pub checkpoints : Dict (List Checkpoint)
  pub attempts : Dict (Dict DispositionAttempt)
  pub dispositions : Dict (Dict Disposition)

abbrev pub new : Store
new = record {
  records = [];
  idempotency = [];
  chain_states = [];
  checkpoints = [];
  attempts = [];
  dispositions = [];
}

abbrev pub genesis_state : AuditChainState
genesis_state = record {
  authoritative_tip_sequence = 0;
  authoritative_tip_hash = none;
  minimum_retained_sequence = 1;
  latest_checkpoint_hash = none;
  retention_policy_fence = 0;
}

abbrev pub or_genesis : Option AuditChainState → AuditChainState
or_genesis none = genesis_state
or_genesis (some state) = state

abbrev is_null_or_hash : Option String → Bool
is_null_or_hash none = true
is_null_or_hash (some s) = is_sha256_hex s

abbrev pub is_null : Option String → Bool
is_null none = true
is_null (some s) = false

abbrev pub same_bool : Bool → Bool → Bool
same_bool true b = b
same_bool false b = not b

unfoldable pub is_retention_policy_fence : ℕ → Bool
is_retention_policy_fence n = leb n max_safe_integer

-- `assertAuditChainState`, `false` where it throws.
unfoldable pub is_audit_chain_state : AuditChainState → Bool
unfolding is_retention_policy_fence
is_audit_chain_state s =
    leb s.authoritative_tip_sequence max_safe_integer
    && leb s.minimum_retained_sequence max_safe_integer
    && leb 1 s.minimum_retained_sequence
    && leb s.minimum_retained_sequence (s.authoritative_tip_sequence + 1)
    && is_null_or_hash s.authoritative_tip_hash
    && is_null_or_hash s.latest_checkpoint_hash
    && same_bool (s.authoritative_tip_sequence == 0) (is_null s.authoritative_tip_hash)
    && same_bool (s.minimum_retained_sequence == 1) (is_null s.latest_checkpoint_hash)
    && is_retention_policy_fence s.retention_policy_fence

unfoldable pub same_chain_state : AuditChainState → AuditChainState → Bool
same_chain_state a b =
    a.authoritative_tip_sequence == b.authoritative_tip_sequence
    && same_or_null a.authoritative_tip_hash b.authoritative_tip_hash
    && a.minimum_retained_sequence == b.minimum_retained_sequence
    && same_or_null a.latest_checkpoint_hash b.latest_checkpoint_hash
    && a.retention_policy_fence == b.retention_policy_fence

abbrev pub state_of : Store → String → AuditChainState
state_of store tenant = or_genesis (get store.chain_states tenant)

unfoldable pub chain_state : Store → String → Result StoreError AuditChainState
chain_state store tenant = do
  require (is_audit_chain_state (state_of store tenant)) invalid_chain_state
  ok (state_of store tenant)

abbrev pub assert_non_empty : String → StoreError → Result StoreError (Unit {0})
assert_non_empty value error = require (not (is_blank value)) error

-- `record.event.scope?.tenantId === tenantId`
unfoldable pub belongs_to : String → AuditRecord → Bool
belongs_to tenant r = same_or_null (tenant_of r.event.scope) (some tenant)

abbrev pub records_of : Store → String → List AuditRecord
records_of store tenant = keep (belongs_to tenant) store.records

abbrev pub or_empty {ℓ} : {A : Type ℓ} → Option (List A) → List A
or_empty none = []
or_empty (some xs) = xs

abbrev pub checkpoints_of : Store → String → List Checkpoint
checkpoints_of store tenant = or_empty (get store.checkpoints tenant)

abbrev pub attempts_of : Store → String → Dict DispositionAttempt
attempts_of store tenant = or_empty (get store.attempts tenant)

abbrev pub dispositions_of : Store → String → Dict Disposition
dispositions_of store tenant = or_empty (get store.dispositions tenant)
