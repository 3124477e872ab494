-- ===== src/Store/Invariant.antt =====
-- The invariant of `MemoryAuditStore`: every tenant's retained records are one chain from its last
-- checkpoint to its authoritative tip.
use veritio.Prelude.{
  ℕ, ◌+◌, ◌≡◌, refl, String, Option, some, List, [], ◌∷◌, false, ◌===◌, ===_iff, last?, Bool-cases,
  inl, inr, All, All-append,
}
use veritio.Prelude.Text.{Text, is_blank}
use veritio.Prelude.Dict.{get, get-set}
use veritio.Protocol.{
  AuditEvent, AuditRecord, tenant_of, truthy, sha256_algorithm, json_v1, hash_audit_record,
  record_json,
}
use veritio.Retention.{Checkpoint}
use veritio.Chain.{audit_envelope}
use veritio.Chain.Linked.{IsSupported}
use veritio.Store.{Store, AuditChainState, new, state_of, records_of, checkpoints_of}
use veritio.Store.Append.{AppendOptions, seal, insert, with_fence}
use veritio.Store.Outcomes.{Inserts}
use veritio.Store.Tenant.{IsAnchored, IsAnchored-append, records_of-append}

truthy-filled : (tenant : String) → is_blank tenant ≡ false → truthy (some tenant) ≡ some tenant
unfolding truthy is_blank
truthy-filled String.[] h = cc
truthy-filled (String.◌∷◌ c cs) h = refl

module _ (sha256 : Text → String) where
  pub record IsSound (store : Store) : Type 0 where
    pub anchored :
        (tenant : String)
        → IsAnchored sha256
            (records_of store tenant)
            (state_of store tenant)
            (last? (checkpoints_of store tenant))
    pub supported : All (λ r. IsSupported (audit_envelope sha256 r)) store.records
    pub owned :
        (tenant : String) (c : Checkpoint)
        → last? (checkpoints_of store tenant) ≡ some c
        → c.tenant_id ≡ tenant

  pub new-IsSound : IsSound new
  unfolding get
  new-IsSound = record {
    anchored = λ t. record { linked = tt; tip = refl; minimum = refl; latest = refl };
    supported = tt;
    owned = λ t c h. cc;
  }

  -- A stored record adds a link to the chain of its tenant, and the others stay as they were.
  insert-IsAnchored :
      (store : Store) (tenant : String) (r : AuditRecord) (other : String)
      → IsAnchored sha256
          (records_of store other)
          (state_of store other)
          (last? (checkpoints_of store other))
      → tenant_of r.event.scope ≡ some tenant
      → r.sequence ≡ (state_of store tenant).authoritative_tip_sequence + 1
      → r.previous_hash ≡ (state_of store tenant).authoritative_tip_hash
      → r.hash ≡ hash_audit_record sha256 r
      → let after = insert sha256 store tenant (state_of store tenant) r in
        IsAnchored sha256
          (records_of after other)
          (state_of after other)
          (last? (checkpoints_of after other))
  unfolding insert
  insert-IsAnchored store tenant r other a scoped number link sum =
      rw (records_of-append tenant other store.records r scoped, get-set store.chain_states tenant)
        (elim (Bool-cases (tenant === other)) [
          | inl same ↦
              rw (same, (===_iff tenant other).0 same)
                (IsAnchored-append sha256 r a (rw (← (===_iff tenant other).0 same) number)
                  (rw (← (===_iff tenant other).0 same) link) sum)
          | inr apart ↦ rw apart a
        ])

  -- What a sealed record has.
  pub record IsSealed (state : AuditChainState) (tenant : String) (r : AuditRecord) : Type 0 where
    pub scoped : tenant_of r.event.scope ≡ some tenant
    pub filled : is_blank tenant ≡ false
    pub algorithm : r.hash_algorithm ≡ sha256_algorithm
    pub canonical : r.canonicalization ≡ json_v1
    pub sequence : r.sequence ≡ state.authoritative_tip_sequence + 1
    pub previous_hash : r.previous_hash ≡ state.authoritative_tip_hash
    pub hash : r.hash ≡ hash_audit_record sha256 r

  insert-IsSound :
      (store : Store) (tenant : String) (r : AuditRecord)
      → IsSound store
      → IsSealed (state_of store tenant) tenant r
      → IsSound (insert sha256 store tenant (state_of store tenant) r)
  insert-IsSound store tenant r v s = record {
    anchored = λ other.
        insert-IsAnchored store tenant r other (v.anchored other) s.scoped s.sequence
          s.previous_hash s.hash;
    supported =
        unfold insert in
        All-append (λ x. IsSupported (audit_envelope sha256 x)) store.records (r ∷ []) v.supported
          (
            record {
              tenant = tenant;
              scoped = rw s.scoped (truthy-filled tenant s.filled);
              algorithm = s.algorithm;
              canonical = s.canonical;
            },
            tt,
          );
    owned = unfold insert in v.owned;
  }

  seal-IsSealed :
      {store : Store} {event : AuditEvent} {options : AppendOptions} {now : String}
      {r : AuditRecord} {after : Store}
      → (i : Inserts sha256 store event options now r after)
      → IsSealed (state_of store i.tenant) i.tenant r
  unfolding seal hash_audit_record record_json
  seal-IsSealed i = rw i.sealed (record {
    scoped = i.scoped;
    filled = i.filled;
    algorithm = refl;
    canonical = refl;
    sequence = refl;
    previous_hash = refl;
    hash = refl;
  })

  pub inserted-IsSound :
      {store : Store} {event : AuditEvent} {options : AppendOptions} {now : String}
      {r : AuditRecord} {after : Store}
      → IsSound store
      → Inserts sha256 store event options now r after
      → IsSound after
  inserted-IsSound {store} {r} v i =
      rw i.moved (insert-IsSound store i.tenant r v (seal-IsSealed i))

  with_fence-IsAnchored :
      {rs : List AuditRecord} {state : AuditChainState} {last : Option Checkpoint} (fence : ℕ)
      → IsAnchored sha256 rs state last
      → IsAnchored sha256 rs (record state { retention_policy_fence = fence }) last
  with_fence-IsAnchored fence a = record {
    linked = a.linked;
    tip = a.tip;
    minimum = a.minimum;
    latest = a.latest;
  }

  pub fence-IsSound :
      (store : Store) (tenant : String) (next : ℕ)
      → IsSound store
      → IsSound (with_fence store tenant (state_of store tenant) next)
  fence-IsSound store tenant next v = record {
    anchored = λ other.
        rw (get-set store.chain_states tenant) (elim (Bool-cases (tenant === other)) [
          | inl here ↦
              rw (here, (===_iff tenant other).0 here)
                (with_fence-IsAnchored next (v.anchored other))
          | inr apart ↦ rw apart (v.anchored other)
        ]);
    supported = v.supported;
    owned = v.owned;
  }
