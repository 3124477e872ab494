-- ===== src/Store/History.antt =====
-- Histories of calls on a `MemoryAuditStore` (sdks/typescript/src/index.ts): any order of calls,
-- each with the clock of its time, for any tenants. A call that throws leaves the store as it was.
use veritio.Prelude.{inl, inr, List, [], ◌∷◌}
use veritio.Prelude.Results.{Result, ok, throws, Result-cases}
use veritio.Retention.Verify.{Platform}
use veritio.Store.{Store, StoreError, new}
use veritio.Store.Dispose.{bind_attempt, confirm}
use veritio.Store.Invariant.{IsSound, new-IsSound, inserted-IsSound, fence-IsSound}
use veritio.Store.Compaction.{compacted-IsSound}
use veritio.Store.Moves.{
  Call, call, Moves, stays, inserts, fences, crops, binds, settles, call-Moves,
}

abbrev kept : Store → Result StoreError Store → Store
kept before (ok after) = after
kept before (throws e) = before

module _ (platform : Platform) where
  unfoldable pub step : Store → Call → Store
  unfolding call
  step store c = kept store (call platform store c)

  unfoldable pub run : Store → List Call → Store
  unfolding step
  run store [] = store
  run store (c ∷ cs) = run (step store c) cs

  move-IsSound :
      (store : Store) (tenant : _) (after : Store)
      → IsSound platform.sha256 store
      → Moves platform store tenant after
      → IsSound platform.sha256 after
  move-IsSound store tenant after v (stays same) = rw same v
  move-IsSound store tenant after v (inserts event options now r i mine) =
      inserted-IsSound platform.sha256 v i
  move-IsSound store tenant after v (fences next number room moved) =
      rw moved (fence-IsSound platform.sha256 store tenant next v)
  move-IsSound store tenant after v (crops c expected fence k) =
      compacted-IsSound platform store tenant c expected fence after v k
  move-IsSound store tenant after v (binds hash attempt fence admitted moved) = rw moved (
      unfold bind_attempt in
      record { anchored = v.anchored; supported = v.supported; owned = v.owned })
  move-IsSound store tenant after v (settles receipt attempt_id fence k) =
      rw k.moved (
        unfold confirm in
        record { anchored = v.anchored; supported = v.supported; owned = v.owned })

  step-IsSound :
      (store : Store) (c : Call)
      → IsSound platform.sha256 store
      → IsSound platform.sha256 (step store c)
  unfolding step
  step-IsSound store c v = elim (Result-cases (call platform store c)) [
    | inl (after, h) ↦
        let (tenant, mine, m) = call-Moves platform store c after h in
        rw (h, step) (move-IsSound store tenant after v m)
    | inr (e, h) ↦ rw (h, step) v
  ]

  run-IsSound :
      (store : Store) (cs : List Call)
      → IsSound platform.sha256 store
      → IsSound platform.sha256 (run store cs)
  unfolding run
  run-IsSound store [] v = v
  run-IsSound store (c ∷ cs) v = run-IsSound (step store c) cs (step-IsSound store c v)

  pub history-IsSound : (cs : List Call) → IsSound platform.sha256 (run new cs)
  history-IsSound cs = run-IsSound new cs (new-IsSound platform.sha256)
