-- ===== src/Store/Progress.antt =====
-- What only grows in a `MemoryAuditStore` (sdks/typescript/src/index.ts).
use veritio.Prelude.{◌≤◌, String, List, [], ◌∷◌, ◌===◌, ===_iff, arith, Bool-cases, inl, inr}
use veritio.Prelude.Dict.{get, set, get-set}
use veritio.Prelude.Results.{Result-cases}
use veritio.Retention.Accepted.{is_checkpoint_input-range}
use veritio.Retention.Verify.{Platform}
use veritio.Store.{Store, AuditChainState, or_genesis, state_of}
use veritio.Store.Append.{insert, seal}
use veritio.Store.Compact.{crop}
use veritio.Store.Dispose.{bind_attempt, confirm}
use veritio.Store.Compaction.{Admits-IsIntact, continues-facts}
use veritio.Store.Moves.{
  Call, call, Moves, stays, inserts, fences, crops, binds, settles, call-Moves,
}
use veritio.Store.History.{step, run}

-- The tip, the first retained number and the fence of a tenant.
pub record Grows (before after : AuditChainState) : Type 0 where
  pub tip : before.authoritative_tip_sequence ≤ after.authoritative_tip_sequence
  pub minimum : before.minimum_retained_sequence ≤ after.minimum_retained_sequence
  pub fence : before.retention_policy_fence ≤ after.retention_policy_fence

Grows-refl : (s : AuditChainState) → Grows s s
Grows-refl s = record { tip = omega arith; minimum = omega arith; fence = omega arith }

Grows-trans : {a b c : AuditChainState} → Grows a b → Grows b c → Grows a c
Grows-trans g h = record {
  tip = omega (arith, g.tip, h.tip);
  minimum = omega (arith, g.minimum, h.minimum);
  fence = omega (arith, g.fence, h.fence);
}

-- A write of the tenant's next state lets every tenant's state grow.
set-Grows :
    (store : Store) (tenant other : String) (next : AuditChainState)
    → Grows (state_of store tenant) next
    → Grows (state_of store other) (or_genesis (get (set store.chain_states tenant next) other))
set-Grows store tenant other next g =
    rw (get-set store.chain_states tenant) (elim (Bool-cases (tenant === other)) [
      | inl same ↦ rw (same, ← (===_iff tenant other).0 same) g
      | inr apart ↦ rw apart (Grows-refl (state_of store other))
    ])

module _ (platform : Platform) where
  move-Grows :
      (store : Store) (tenant : String) (after : Store) (other : String)
      → Moves platform store tenant after
      → Grows (state_of store other) (state_of after other)
  unfolding insert seal crop bind_attempt confirm
  move-Grows store tenant after other (stays same) = rw same (Grows-refl (state_of store other))
  move-Grows store tenant after other (inserts event options now r i mine) =
      rw (i.moved, i.sealed)
        (set-Grows store i.tenant other _
          (record { tip = omega arith; minimum = omega arith; fence = omega arith }))
  move-Grows store tenant after other (fences next number room moved) = rw moved (
      set-Grows store tenant other _
        (record { tip = omega arith; minimum = omega arith; fence = omega (arith, number) }))
  move-Grows store tenant after other (crops c expected fence k) = rw k.moved (
      set-Grows store tenant other _ (record {
        tip = omega arith;
        minimum = omega (
          arith,
          (continues-facts c _ _ k.admits.continued).0,
          (is_checkpoint_input-range c.input (Admits-IsIntact k.admits).input).0,
        );
        fence = omega arith;
      }))
  move-Grows store tenant after other (binds hash attempt fence admitted moved) =
      rw moved (Grows-refl (state_of store other))
  move-Grows store tenant after other (settles receipt attempt_id fence k) =
      rw k.moved (Grows-refl (state_of store other))

  step-Grows :
      (store : Store) (c : Call) (tenant : String)
      → Grows (state_of store tenant) (state_of (step platform store c) tenant)
  unfolding step
  step-Grows store c tenant = elim (Result-cases (call platform store c)) [
    | inl (after, h) ↦
        let (mover, mine, m) = call-Moves platform store c after h in
        rw (h, step) (move-Grows store mover after tenant m)
    | inr (e, h) ↦ rw (h, step) (Grows-refl (state_of store tenant))
  ]

  -- Over any history of calls, a tenant's tip sequence, first retained sequence and retention policy
  -- fence never decrease.
  pub run-Grows :
      (store : Store) (cs : List Call) (tenant : String)
      → Grows (state_of store tenant) (state_of (run platform store cs) tenant)
  unfolding run
  run-Grows store [] tenant = Grows-refl (state_of store tenant)
  run-Grows store (c ∷ cs) tenant =
      Grows-trans (step-Grows store c tenant) (run-Grows (step platform store c) cs tenant)
