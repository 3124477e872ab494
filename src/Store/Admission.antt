-- ===== src/Store/Admission.antt =====
-- What a `compactRange` of sdks/typescript/src/index.ts that returns has checked.
use veritio.Prelude.{
  ℕ, ◌≤◌, ◌≡◌, sym, String, some, true, not, ◌&&◌, leb, leb→le, ◌==◌, ==→≡, ◌===◌, ===_iff,
  same_or_null_iff, length, and-eq-true,
}
use veritio.Prelude.Text.{is_blank}
use veritio.Prelude.Results.{ok, require-eq-ok, require-eq-ok_last, >>=-eq-ok, ok-injective}
use veritio.Retention.{Checkpoint}
use veritio.Retention.Verify.{Platform, no_options, verify_retention_checkpoint}
use veritio.Store.{
  Store, tenant_required, chain_state_mismatch, invalid_fence, invalid_chain_state, fence_mismatch,
  checkpoint_scope_mismatch, checkpoint_prefix_mismatch, checkpoint_exceeds_tip, not_intact_prefix,
  AuditChainState, state_of, checkpoints_of, is_audit_chain_state, same_chain_state,
  is_retention_policy_fence,
}
use veritio.Store.Compact.{
  or_invalid, continues, covered, check_covered, admit_on, admit_checkpoint, check_range, crop,
  compact_range,
}
use veritio.Store.Outcomes.{chain_state-bind}

-- What an admitted checkpoint has met.
pub record Admits (platform : Platform) (store : Store) (tenant : String) (c : Checkpoint)
    (expected : AuditChainState) (fence : ℕ) : Type 0 where
  pub coherent : is_audit_chain_state (state_of store tenant) ≡ true
  pub same_state : same_chain_state (state_of store tenant) expected ≡ true
  pub same_fence : fence ≡ (state_of store tenant).retention_policy_fence
  pub verified : or_invalid (verify_retention_checkpoint platform c no_options) ≡ ok tt
  pub tenant_id : c.tenant_id ≡ tenant
  pub continued : continues c (checkpoints_of store tenant) (state_of store tenant) ≡ true
  pub within : c.through_sequence ≤ (state_of store tenant).authoritative_tip_sequence

admit_on-Admits :
    (platform : Platform) (store : Store) (tenant : String) (c : Checkpoint)
    (expected current : AuditChainState) (fence : ℕ)
    → is_audit_chain_state (state_of store tenant) ≡ true
    → admit_on platform store tenant c expected fence (state_of store tenant) ≡ ok current
    → Admits platform store tenant c expected fence × (current ≡ state_of store tenant)
unfolding admit_on
admit_on-Admits platform store tenant c expected current fence coherent h =
    let state = state_of store tenant in
    let (same, h1) = require-eq-ok (same_chain_state state expected) chain_state_mismatch _ h in
    let (fenced, h2) =
      require-eq-ok
        (fence == state.retention_policy_fence && expected.retention_policy_fence == fence)
        fence_mismatch _ h1 in
    let (u, verified, h3) =
      >>=-eq-ok (or_invalid (verify_retention_checkpoint platform c no_options)) _ h2 in
    let (scope, h4) =
      require-eq-ok (c.tenant_id === tenant && c.chain_kind === "audit") checkpoint_scope_mismatch _
        h3 in
    let (continued, h5) =
      require-eq-ok (continues c (checkpoints_of store tenant) state) checkpoint_prefix_mismatch _
        h4 in
    let (within, h6) =
      require-eq-ok (leb c.through_sequence state.authoritative_tip_sequence) checkpoint_exceeds_tip
        _ h5 in
    (
      record {
        coherent = coherent;
        same_state = same;
        same_fence = ==→≡ _ _ (and-eq-true _ _ fenced).0;
        verified = verified;
        tenant_id = (===_iff _ _).0 (and-eq-true _ _ scope).0;
        continued = continued;
        within = leb→le _ _ within;
      },
      sym (ok-injective h6),
    )

admit_checkpoint-Admits :
    (platform : Platform) (store : Store) (tenant : String) (c : Checkpoint)
    (expected current : AuditChainState) (fence : ℕ)
    → admit_checkpoint platform store tenant c expected fence ≡ ok current
    → Admits platform store tenant c expected fence × (current ≡ state_of store tenant)
unfolding admit_checkpoint
admit_checkpoint-Admits platform store tenant c expected current fence h =
    let (filled, h1) = require-eq-ok (not (is_blank tenant)) tenant_required _ h in
    let (number, h2) = require-eq-ok (is_retention_policy_fence fence) invalid_fence _ h1 in
    let (shape, h3) = require-eq-ok (is_audit_chain_state expected) invalid_chain_state _ h2 in
    let (coherent, h4) =
      chain_state-bind store tenant (admit_on platform store tenant c expected fence) h3 in
    admit_on-Admits platform store tenant c expected current fence coherent h4

check_range-facts :
    (platform : Platform) (store : Store) (tenant : String) (c : Checkpoint) {u : Unit {0}}
    → check_range platform store tenant c ≡ ok u
    → (length (covered tenant c store.records) ≡ c.record_count)
      × (check_covered platform c.from_sequence c.from_previous_hash
            (covered tenant c store.records)
          ≡ ok (some c.through_hash))
unfolding check_range
check_range-facts platform store tenant c h =
    let (count, h1) =
      require-eq-ok (length (covered tenant c store.records) == c.record_count) not_intact_prefix _
        h in
    let (tip, walked, h2) =
      >>=-eq-ok
        (check_covered platform c.from_sequence c.from_previous_hash
          (covered tenant c store.records))
        _ h1 in
    let closes = require-eq-ok_last _ _ h2 in
    (==→≡ _ _ count, rw (← (same_or_null_iff tip (some c.through_hash)).0 closes) walked)

-- What a compaction that returns has met, and the store that it leaves.
pub record Compacts (platform : Platform) (store : Store) (tenant : String) (c : Checkpoint)
    (expected : AuditChainState) (fence : ℕ) (after : Store) : Type 0 where
  pub admits : Admits platform store tenant c expected fence
  pub count : length (covered tenant c store.records) ≡ c.record_count
  pub intact :
      check_covered platform c.from_sequence c.from_previous_hash (covered tenant c store.records)
      ≡ ok (some c.through_hash)
  pub moved : after ≡ crop platform store tenant c (state_of store tenant)

pub compact_range-Compacts :
    (platform : Platform) (store : Store) (tenant : String) (c : Checkpoint)
    (expected : AuditChainState) (fence : ℕ) (after : Store)
    → compact_range platform store tenant c expected fence ≡ ok after
    → Compacts platform store tenant c expected fence after
unfolding compact_range
compact_range-Compacts platform store tenant c expected fence after h =
    let (current, admitted, h1) =
      >>=-eq-ok (admit_checkpoint platform store tenant c expected fence) _ h in
    let (admits, same) =
      admit_checkpoint-Admits platform store tenant c expected current fence admitted in
    let (u, ranged, h2) = >>=-eq-ok (check_range platform store tenant c) _ h1 in
    let (count, intact) = check_range-facts platform store tenant c ranged in
    record {
      admits = admits;
      count = count;
      intact = intact;
      moved = rw (← same) (sym (ok-injective h2));
    }
