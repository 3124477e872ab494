-- ===== src/Store/Compact.antt =====
-- `compactRange` and `listCheckpoints` of `MemoryAuditStore` (sdks/typescript/src/index.ts).
use veritio.Prelude.{
  ℕ, ◌+◌, String, Option, none, some, List, [], ◌∷◌, ◌++◌, Bool, not, ◌&&◌, leb, ◌==◌, ◌===◌,
  same_or_null, if◌then◌else◌, keep, length, last?,
}
use veritio.Prelude.Dict.{Dict, get, set}
use veritio.Prelude.Results.{Result, ok, throws, require, ◌>>=◌, ◌>>◌}
use veritio.Protocol.{AuditRecord, hash_audit_record}
use veritio.Retention.{Checkpoint, RetentionResult, accepted, refused}
use veritio.Retention.Verify.{Platform, verify_retention_checkpoint, no_options}
use veritio.Store.{
  Store, StoreError, tenant_required, invalid_fence, fence_mismatch, chain_state_mismatch,
  invalid_chain_state, invalid_checkpoint, checkpoint_scope_mismatch, checkpoint_prefix_mismatch,
  checkpoint_exceeds_tip, not_intact_prefix, integrity_failed, through_hash_mismatch,
  IdempotencyEntry, AuditChainState, chain_state, assert_non_empty, is_retention_policy_fence,
  is_audit_chain_state, same_chain_state, belongs_to, checkpoints_of,
}

abbrev pub or_invalid : RetentionResult → Result StoreError (Unit {0})
or_invalid (accepted status) = ok tt
or_invalid (refused index reason status) = throws (invalid_checkpoint reason)

abbrev pub hash_of : Option Checkpoint → Option String
hash_of none = none
hash_of (some c) = some c.hash

abbrev pub through_hash_of : Option Checkpoint → Option String
through_hash_of none = none
through_hash_of (some c) = some c.through_hash

-- Whether the checkpoint goes on where the tenant's last one ended.
unfoldable pub continues : Checkpoint → List Checkpoint → AuditChainState → Bool
continues c previous current =
    c.epoch == length previous + 1
    && same_or_null c.previous_checkpoint_hash (hash_of (last? previous))
    && c.from_sequence == current.minimum_retained_sequence
    && same_or_null c.from_previous_hash (through_hash_of (last? previous))

unfoldable pub in_range : Checkpoint → AuditRecord → Bool
in_range c r = leb c.from_sequence r.sequence && leb r.sequence c.through_sequence

unfoldable pub insert_by_sequence : AuditRecord → List AuditRecord → List AuditRecord
insert_by_sequence r [] = r ∷ []
insert_by_sequence r (s ∷ ss) =
    let rest = insert_by_sequence r ss in if leb r.sequence s.sequence then r ∷ s ∷ ss else s ∷ rest

unfoldable pub sort_by_sequence : List AuditRecord → List AuditRecord
unfolding insert_by_sequence
sort_by_sequence [] = []
sort_by_sequence (r ∷ rs) = insert_by_sequence r (sort_by_sequence rs)

unfoldable pub covered : String → Checkpoint → List AuditRecord → List AuditRecord
unfolding in_range
covered tenant c records =
    sort_by_sequence (keep (λ r. belongs_to tenant r && in_range c r) records)

unfoldable pub retained : String → Checkpoint → List AuditRecord → List AuditRecord
unfolding in_range
retained tenant c records = keep (λ r. not (belongs_to tenant r && in_range c r)) records

-- The entry keeps its hashes and loses its record.
abbrev pub entomb : IdempotencyEntry → IdempotencyEntry
entomb entry = record entry { stored = none }

unfoldable pub dispose_key : Dict IdempotencyEntry → String → Dict IdempotencyEntry
dispose_key entries key = elim (get entries key) [
  | none ↦ entries
  | some entry ↦ set entries key (entomb entry)
]

unfoldable pub dispose_keys : Dict IdempotencyEntry → List AuditRecord → Dict IdempotencyEntry
unfolding dispose_key
dispose_keys entries [] = entries
dispose_keys entries (r ∷ rs) = dispose_keys (dispose_key entries r.idempotency_key_hash) rs

module _ (platform : Platform) where
  open platform use {sha256}

  -- The integrity loop over the covered records; the result is the last hash.
  unfoldable pub check_covered :
      ℕ → Option String → List AuditRecord → Result StoreError (Option String)
  check_covered sequence previous_hash [] = ok previous_hash
  check_covered sequence previous_hash (r ∷ rs) =
      if r.sequence == sequence
        && same_or_null r.previous_hash previous_hash
        && hash_audit_record sha256 r === r.hash
      then check_covered (sequence + 1) (some r.hash) rs
      else throws integrity_failed

  -- The tests on the tenant's authority, before any record is read.
  unfoldable pub admit_on :
      Store
      → String
      → Checkpoint
      → AuditChainState
      → ℕ
      → AuditChainState
      → Result StoreError AuditChainState
  admit_on store tenant c expected fence current = do
    require (same_chain_state current expected) chain_state_mismatch
    require (fence == current.retention_policy_fence && expected.retention_policy_fence == fence)
        fence_mismatch
    or_invalid (verify_retention_checkpoint platform c no_options)
    require (c.tenant_id === tenant && c.chain_kind === "audit") checkpoint_scope_mismatch
    require (continues c (checkpoints_of store tenant) current) checkpoint_prefix_mismatch
    require (leb c.through_sequence current.authoritative_tip_sequence) checkpoint_exceeds_tip
    ok current

  unfoldable pub admit_checkpoint :
      Store → String → Checkpoint → AuditChainState → ℕ → Result StoreError AuditChainState
  admit_checkpoint store tenant c expected fence = do
    assert_non_empty tenant tenant_required
    require (is_retention_policy_fence fence) invalid_fence
    require (is_audit_chain_state expected) invalid_chain_state
    current ← chain_state store tenant
    admit_on store tenant c expected fence current

  -- The tests on the covered records.
  unfoldable pub check_range : Store → String → Checkpoint → Result StoreError (Unit {0})
  unfolding check_covered
  check_range store tenant c = do
    require (length (covered tenant c store.records) == c.record_count) not_intact_prefix
    tip ← check_covered c.from_sequence c.from_previous_hash (covered tenant c store.records)
    require (same_or_null tip (some c.through_hash)) through_hash_mismatch

  -- The writes.
  unfoldable pub crop : Store → String → Checkpoint → AuditChainState → Store
  unfolding covered retained dispose_keys
  crop store tenant c current = record store {
    records = retained tenant c store.records;
    idempotency = dispose_keys store.idempotency (covered tenant c store.records);
    checkpoints = set store.checkpoints tenant (checkpoints_of store tenant ++ c ∷ []);
    chain_states = set store.chain_states tenant (record current {
      minimum_retained_sequence = c.through_sequence + 1;
      latest_checkpoint_hash = some c.hash;
    });
  }

  unfoldable pub compact_range :
      Store → String → Checkpoint → AuditChainState → ℕ → Result StoreError Store
  unfolding admit_checkpoint check_range crop
  compact_range store tenant c expected fence = do
    current ← admit_checkpoint store tenant c expected fence
    check_range store tenant c
    ok (crop store tenant c current)

unfoldable pub list_checkpoints : Store → String → Result StoreError (List Checkpoint)
list_checkpoints store tenant = do
  assert_non_empty tenant tenant_required
  ok (checkpoints_of store tenant)
