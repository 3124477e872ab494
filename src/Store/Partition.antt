-- ===== src/Store/Partition.antt =====
-- What a `compactRange` of sdks/typescript/src/index.ts takes out of the store.
use veritio.Prelude.{ℕ, ◌+◌, ◌≤◌, ◌≡◌, sym, String, List, ◌++◌, length, last?, arith}
use veritio.Prelude.Dict.{get-set_self}
use veritio.Prelude.Results.{ok}
use veritio.Retention.{Checkpoint}
use veritio.Retention.Verify.{Platform}
use veritio.Store.{Store, AuditChainState, new, state_of, records_of, checkpoints_of, belongs_to}
use veritio.Store.Compact.{covered, retained, in_range, compact_range, crop}
use veritio.Store.Tenant.{IsAnchored, base_of}
use veritio.Chain.{Tip}
use veritio.Store.Crop.{keep-drop, split_range}
use veritio.Store.Invariant.{IsSound}
use veritio.Store.Compaction.{covered-eq, continues-facts}
use veritio.Store.Moves.{Call}
use veritio.Store.History.{run, history-IsSound}
use veritio.Store.Admission.{Compacts, compact_range-Compacts}

module _ (platform : Platform) where
  Compacts-parts :
      (store : Store) (tenant : String) (c : Checkpoint) (expected : AuditChainState) (fence : ℕ)
      (after : Store)
      → IsSound platform.sha256 store
      → Compacts platform store tenant c expected fence after
      → records_of store tenant ≡ covered tenant c store.records ++ records_of after tenant
  unfolding crop retained
  Compacts-parts store tenant c expected fence after v k =
      rw
        (
          k.moved,
          keep-drop (belongs_to tenant) (in_range c) store.records,
          covered-eq platform.sha256 tenant c base store.records a.linked start,
        )
        (sym (split_range platform.sha256 c base (records_of store tenant) a.linked start))
    where
      a :
          IsAnchored platform.sha256
            (records_of store tenant)
            (state_of store tenant)
            (last? (checkpoints_of store tenant))
      a = v.anchored tenant

      base : Tip
      base = base_of (last? (checkpoints_of store tenant))

      start : c.from_sequence ≤ base.sequence + 1
      start = omega (arith, (continues-facts c _ _ k.admits.continued).0, a.minimum)

  -- After any history of calls, a compaction that returns removes from the tenant's records exactly
  -- a prefix, the records that the checkpoint covers, as many as its `recordCount`; the tip stays,
  -- and the first retained sequence is the one after the checkpoint's range.
  pub compaction_cuts_prefix :
      (cs : List Call) (tenant : String) (c : Checkpoint) (expected : AuditChainState) (fence : ℕ)
      (after : Store)
      → compact_range platform (run platform new cs) tenant c expected fence ≡ ok after
      → let before = run platform new cs in
        (records_of before tenant ≡ covered tenant c before.records ++ records_of after tenant)
        × (length (covered tenant c before.records) ≡ c.record_count)
        × ((state_of after tenant).authoritative_tip_sequence
            ≡ (state_of before tenant).authoritative_tip_sequence)
        × ((state_of after tenant).authoritative_tip_hash
            ≡ (state_of before tenant).authoritative_tip_hash)
        × ((state_of after tenant).minimum_retained_sequence ≡ c.through_sequence + 1)
  unfolding crop
  compaction_cuts_prefix cs tenant c expected fence after h =
      let before = run platform new cs in
      let k = compact_range-Compacts platform before tenant c expected fence after h in
      (
        Compacts-parts before tenant c expected fence after (history-IsSound platform cs) k,
        k.count,
        rw (k.moved, get-set_self before.chain_states tenant),
        rw (k.moved, get-set_self before.chain_states tenant),
        rw (k.moved, get-set_self before.chain_states tenant),
      )
