-- ===== src/Store/Isolation.antt =====
-- What a call on a `MemoryAuditStore` (sdks/typescript/src/index.ts) leaves alone: the other
-- tenants' part of the store.
use veritio.Prelude.{
  ◌≡◌, refl, ap, ◌∙◌, String, some, [], ◌∷◌, ◌++◌, true, false, ◌===◌, ===_iff, Bool-cases, inl,
  inr, ◌⊎◌, Any, Any-append, Any-append_right, Any-map, arith,
}
use veritio.Protocol.{AuditRecord}
use veritio.Retention.{Checkpoint}
use veritio.Store.Untouched.{HasKey, covered-apart, set-apart}
use veritio.Prelude.Dict.{Dict, get, set, get-set}
use veritio.Prelude.Results.{Result-cases}
use veritio.Retention.Verify.{Platform}
use veritio.Store.{
  Store, AuditChainState, state_of, records_of, checkpoints_of, attempts_of, dispositions_of,
  belongs_to,
}
use veritio.Store.Append.{insert, seal}
use veritio.Store.Compact.{in_range, retained, crop}
use veritio.Store.Dispose.{bind_attempt, confirm}
use veritio.Store.Tenant.{records_of-append, belongs_to-eq}
use veritio.Store.Crop.{keep-apart}
use veritio.Store.Compaction.{belongs-apart}
use veritio.Store.Moves.{
  Call, call, concerns, Moves, stays, inserts, fences, crops, binds, settles, call-Moves,
}
use veritio.Store.History.{step}

-- The entry of a key is as it was, or the key is of a record of another tenant.
abbrev pub KeepsEntry : Store → Store → String → String → Type 0
KeepsEntry before after tenant key =
    (get after.idempotency key ≡ get before.idempotency key)
    ⊎ Any (λ r. HasKey key r × (belongs_to tenant r ≡ false)) (before.records ++ after.records)

-- A tenant's part of the store.
pub record SameView (before after : Store) (tenant : String) : Type 0 where
  pub records : records_of after tenant ≡ records_of before tenant
  pub chain_state : state_of after tenant ≡ state_of before tenant
  pub checkpoints : checkpoints_of after tenant ≡ checkpoints_of before tenant
  pub attempts : attempts_of after tenant ≡ attempts_of before tenant
  pub dispositions : dispositions_of after tenant ≡ dispositions_of before tenant
  pub entries : (key : String) → KeepsEntry before after tenant key

SameView-refl : (store : Store) (tenant : String) → SameView store store tenant
SameView-refl store tenant = record {
  records = refl;
  chain_state = refl;
  checkpoints = refl;
  attempts = refl;
  dispositions = refl;
  entries = λ key. inl refl;
}

===_flip : (a b : String) → (a === b) ≡ false → (b === a) ≡ false
===_flip a b apart = ground (arith, ===_iff a b, ===_iff b a)

get-set_apart :
    {V : Type 0} (d : Dict V) (tenant other : String) (value : V)
    → (tenant === other) ≡ false
    → get (set d tenant value) other ≡ get d other
get-set_apart d tenant other value apart = rw (get-set d tenant, apart)

module _ (platform : Platform) where
  insert-KeepsEntry :
      (store : Store) (tenant : String) (state : AuditChainState) (r : AuditRecord)
      (other key : String)
      → belongs_to other r ≡ false
      → KeepsEntry store (insert platform.sha256 store tenant state r) other key
  unfolding insert
  insert-KeepsEntry store tenant state r other key apart =
      elim (set-apart store.idempotency r _ key) [
        | inl kept ↦ inl kept
        | inr mine ↦ inr (
            Any-append_right _ store.records (store.records ++ r ∷ [])
              (Any-append_right _ store.records (r ∷ []) (inl (mine, apart))))
      ]

  crop-KeepsEntry :
      (store : Store) (tenant : String) (c : Checkpoint) (state : AuditChainState)
      (other key : String)
      → (tenant === other) ≡ false
      → KeepsEntry store (crop platform store tenant c state) other key
  unfolding crop
  crop-KeepsEntry store tenant c state other key apart =
      elim (covered-apart store.idempotency tenant c store.records key) [
        | inl kept ↦ inl kept
        | inr mine ↦ inr (
            Any-append _ store.records _ (
              Any-map (λ r. HasKey key r × (belongs_to tenant r ≡ true)) _
                (λ r h. (h.0, belongs-apart other tenant r (===_flip tenant other apart) h.1))
                store.records mine))
      ]

  move-SameView :
      (before : Store) (tenant : String) (after : Store) (other : String)
      → (tenant === other) ≡ false
      → Moves platform before tenant after
      → SameView before after other
  unfolding insert seal crop retained bind_attempt confirm
  move-SameView before tenant after other apart (stays same) = rw same (SameView-refl before other)
  move-SameView before tenant after other apart (inserts event options now r i mine) =
      rw i.moved (record {
        records =
            rw (
              records_of-append i.tenant other before.records r (rw i.sealed i.scoped),
              mine,
              apart,
            );
        chain_state = rw (mine, get-set_apart before.chain_states tenant other _ apart);
        checkpoints = refl;
        attempts = refl;
        dispositions = refl;
        entries = λ key.
            insert-KeepsEntry before i.tenant (state_of before i.tenant) r other key
              (belongs_to-eq i.tenant other r (rw i.sealed i.scoped) ∙ rw mine apart);
      })
  move-SameView before tenant after other apart (fences next number room moved) = rw moved (record {
    records = refl;
    chain_state = rw (get-set_apart before.chain_states tenant other _ apart);
    checkpoints = refl;
    attempts = refl;
    dispositions = refl;
    entries = λ key. inl refl;
  })
  move-SameView before tenant after other apart (crops c expected fence k) = rw k.moved (record {
    records =
        keep-apart (belongs_to tenant) (in_range c) (belongs_to other)
          (λ r. belongs-apart tenant other r apart) before.records;
    chain_state = rw (get-set_apart before.chain_states tenant other _ apart);
    checkpoints = rw (get-set_apart before.checkpoints tenant other _ apart);
    attempts = refl;
    dispositions = refl;
    entries = λ key. crop-KeepsEntry before tenant c (state_of before tenant) other key apart;
  })
  move-SameView before tenant after other apart (binds hash attempt fence admitted moved) =
      rw moved (record {
        records = refl;
        chain_state = refl;
        checkpoints = refl;
        attempts = rw (get-set_apart before.attempts tenant other _ apart);
        dispositions = refl;
        entries = λ key. inl refl;
      })
  move-SameView before tenant after other apart (settles receipt attempt_id fence k) =
      rw k.moved (record {
        records = refl;
        chain_state = refl;
        checkpoints = refl;
        attempts = rw (get-set_apart before.attempts tenant other _ apart);
        dispositions = rw (get-set_apart before.dispositions tenant other _ apart);
        entries = λ key. inl refl;
      })

  -- A call about one tenant, whether it returns or throws, leaves every other tenant's records,
  -- chain state, checkpoints, disposition attempts and dispositions as they were. Where it changes the
  -- idempotency entry of a key, the key is of a record that is not of the tenant left alone, one that
  -- the store had before the call or has after it.
  pub step_isolates :
      (store : Store) (c : Call) (other : String)
      → ¬ (concerns c ≡ some other)
      → SameView store (step platform store c) other
  unfolding step
  step_isolates store c other apart = elim (Result-cases (call platform store c)) [
    | inl (after, h) ↦
        let (tenant, mine, m) = call-Moves platform store c after h in
        rw (h, step)
          (elim (Bool-cases (tenant === other)) [
            | inl same ↦ absurd (apart (mine ∙ ap some ((===_iff tenant other).0 same)))
            | inr differs ↦ move-SameView store tenant after other differs m
          ])
    | inr (e, h) ↦ rw (h, step) (SameView-refl store other)
  ]
