-- ===== src/Store/Append.antt =====
-- `append`, `list`, `records`, `getChainState` and `advanceRetentionPolicyFence` of
-- `MemoryAuditStore` (sdks/typescript/src/index.ts). `now` is the clock's ISO text. The `limit` and
-- `afterSequence` of a list are natural numbers, so their range tests hold by their type.
use veritio.Prelude.{
  ℕ, ◌+◌, String, Option, none, some, List, [], ◌∷◌, ◌++◌, Bool, true, ◌&&◌, ltb, leb, ◌==◌, ◌===◌,
  same_or_null, if◌then◌else◌, keep, take,
}
use veritio.Prelude.Text.{Text, codes, is_blank}
use veritio.Prelude.Dict.{get, set}
use veritio.Prelude.Results.{Result, ok, throws, require, ◌>>=◌, ◌>>◌}
use veritio.Json.{canonical_json}
use veritio.Protocol.{
  AuditEvent, AuditRecord, tenant_of, event_json, hash_audit_record, sha256_algorithm, json_v1,
}
use veritio.Retention.Formats.{max_safe_integer}
use veritio.Store.{
  Store, StoreError, tenant_required, idempotency_key_required, idempotency_conflict,
  idempotency_history_disposed, stale_previous_hash, invalid_fence, fence_mismatch, fence_exhausted,
  IdempotencyEntry, AuditChainState, chain_state, assert_non_empty, is_retention_policy_fence,
  belongs_to,
}

-- An `expectedPreviousHash` may be omitted, or be null.
pub record AppendOptions : Type 0 where
  pub idempotency_key : Option String
  pub expected_previous_hash : Option (Option String)

pub record ListOptions : Type 0 where
  pub after_sequence : Option ℕ
  pub limit : Option ℕ

abbrev pub or_default {ℓ} : {A : Type ℓ} → A → Option A → A
or_default default none = default
or_default default (some a) = a

abbrev pub require_tenant : Option String → Result StoreError String
require_tenant none = throws tenant_required
require_tenant (some tenant) = if is_blank tenant then throws tenant_required else ok tenant

abbrev pub expects : Option (Option String) → Option String → Bool
expects none tip = true
expects (some expected) tip = same_or_null expected tip

-- A known key replays its record, if the event is the same and the record is still there.
unfoldable pub replay : IdempotencyEntry → String → Result StoreError AuditRecord
replay existing event_hash =
    if existing.event_canonical_hash === event_hash
    then elim existing.stored [
      | none ↦ throws idempotency_history_disposed
      | some stored ↦ ok stored
    ]
    else throws idempotency_conflict

module _ (sha256 : Text → String) where
  unfoldable pub hash_idempotency_key : String → String → Result StoreError String
  hash_idempotency_key tenant_id idempotency_key = do
    assert_non_empty tenant_id tenant_required
    assert_non_empty idempotency_key idempotency_key_required
    ok (sha256 (codes tenant_id ++ 0 ∷ codes idempotency_key))

  unfoldable pub hash_event : AuditEvent → String
  hash_event event = sha256 (canonical_json (event_json event))

  unfoldable pub seal : AuditEvent → AuditChainState → String → String → AuditRecord
  seal event state now key_hash =
      let unsealed : AuditRecord = record {
        event = event;
        sequence = state.authoritative_tip_sequence + 1;
        previous_hash = state.authoritative_tip_hash;
        hash = "";
        hash_algorithm = sha256_algorithm;
        canonicalization = json_v1;
        appended_at = now;
        idempotency_key_hash = key_hash;
      } in
      record unsealed { hash = hash_audit_record sha256 unsealed }

  -- The three writes of an append.
  unfoldable pub insert : Store → String → AuditChainState → AuditRecord → Store
  insert store tenant state r = record store {
    records = store.records ++ r ∷ [];
    chain_states = set store.chain_states tenant (record state {
      authoritative_tip_sequence = r.sequence;
      authoritative_tip_hash = some r.hash;
    });
    idempotency = set store.idempotency r.idempotency_key_hash (record {
      event_canonical_hash = hash_event r.event;
      original_sequence = r.sequence;
      original_record_hash = r.hash;
      stored = some r;
    });
  }

  -- An append on the tip that was read.
  unfoldable pub append_to :
      AuditChainState
      → Store
      → String
      → String
      → AuditEvent
      → AppendOptions
      → String
      → Result StoreError (AuditRecord × Store)
  append_to state store tenant key_hash event options now =
      let r = seal event state now key_hash in
      if expects options.expected_previous_hash state.authoritative_tip_hash
      then ok (r, insert store tenant state r)
      else throws stale_previous_hash

  unfoldable pub append_new :
      Store
      → String
      → String
      → AuditEvent
      → AppendOptions
      → String
      → Result StoreError (AuditRecord × Store)
  append_new store tenant key_hash event options now = do
    state ← chain_state store tenant
    append_to state store tenant key_hash event options now

  -- What an append does with the entry of its idempotency key.
  unfoldable pub append_keyed :
      Option IdempotencyEntry
      → Store
      → String
      → String
      → AuditEvent
      → AppendOptions
      → String
      → Result StoreError (AuditRecord × Store)
  append_keyed none store tenant key_hash event options now =
      append_new store tenant key_hash event options now
  append_keyed (some existing) store tenant key_hash event options now = do
    r ← replay existing (hash_event event)
    ok (r, store)

  unfoldable pub append :
      Store → AuditEvent → AppendOptions → String → Result StoreError (AuditRecord × Store)
  append store event options now = do
    tenant ← require_tenant (tenant_of event.scope)
    key_hash ← hash_idempotency_key tenant (or_default event.id options.idempotency_key)
    append_keyed (get store.idempotency key_hash) store tenant key_hash event options now

abbrev pub limited {ℓ} : {A : Type ℓ} → Option ℕ → List A → List A
limited none xs = xs
limited (some limit) xs = take limit xs

unfoldable pub list : Store → String → ListOptions → Result StoreError (List AuditRecord)
list store tenant options = do
  assert_non_empty tenant tenant_required
  ok (
      limited options.limit (
        keep (λ r. belongs_to tenant r && ltb (or_default 0 options.after_sequence) r.sequence)
          store.records))

unfoldable pub get_chain_state : Store → String → Result StoreError AuditChainState
get_chain_state store tenant = do assert_non_empty tenant tenant_required; chain_state store tenant

abbrev pub with_fence : Store → String → AuditChainState → ℕ → Store
with_fence store tenant current fence = record store {
  chain_states = set store.chain_states tenant (record current { retention_policy_fence = fence });
}

unfoldable pub advance_from : AuditChainState → Store → String → ℕ → Result StoreError (ℕ × Store)
advance_from current store tenant expected = do
  require (current.retention_policy_fence == expected) fence_mismatch
  require (leb (current.retention_policy_fence + 1) max_safe_integer) fence_exhausted
  let next = current.retention_policy_fence + 1
  ok (next, with_fence store tenant current next)

unfoldable pub advance_retention_policy_fence : Store → String → ℕ → Result StoreError (ℕ × Store)
advance_retention_policy_fence store tenant expected = do
  assert_non_empty tenant tenant_required
  require (is_retention_policy_fence expected) invalid_fence
  current ← chain_state store tenant
  advance_from current store tenant expected
