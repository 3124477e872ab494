-- ===== src/Store/Compaction.antt =====
-- A `compactRange` of sdks/typescript/src/index.ts that returns: what it has checked, and that it
-- keeps every tenant's records one chain to the authoritative tip.
use veritio.Prelude.{
  ℕ, ◌+◌, ◌≤◌, ◌≡◌, refl, sym, ap, ◌∙◌, String, Option, none, some, List, true, false, not, ◌&&◌,
  ◌===◌, ===_iff, same_or_null_iff, keep, length, last?, last?-concat, arith, Bool-cases, inl, inr,
  All-keep,
}
use veritio.Prelude.Text.{Text}
use veritio.Prelude.Dict.{get-set}
use veritio.Prelude.Results.{ok}
use veritio.Protocol.{AuditRecord, tenant_of}
use veritio.Chain.{Tip, audit_envelope}
use veritio.Chain.Linked.{IsSupported, Linked, end_of}
use veritio.Retention.{Checkpoint, SignatureStatus, RetentionResult, accepted, refused}
use veritio.Retention.Accepted.{IsIntact, accepted-IsIntact, is_checkpoint_input-range}
use veritio.Retention.Verify.{Platform, no_options}
use veritio.Store.{Store, AuditChainState, state_of, records_of, checkpoints_of, belongs_to}
use veritio.Store.Compact.{
  or_invalid, continues, in_range, covered, retained, crop, through_hash_of,
}
use veritio.Store.Tenant.{IsAnchored, base_of, envelopes}
use veritio.Store.Crop.{
  keep-and, keep-drop, keep-apart, split-Linked, sort-Linked, check_covered-end, crop-IsAnchored,
}
use veritio.Store.Invariant.{IsSound}
use veritio.Store.Admission.{Admits, Compacts}

pub continues-facts :
    (c : Checkpoint) (previous : List Checkpoint) (current : AuditChainState)
    → continues c previous current ≡ true
    → (c.from_sequence ≡ current.minimum_retained_sequence)
      × (c.from_previous_hash ≡ through_hash_of (last? previous))
unfolding continues
continues-facts c previous current h =
    ground (arith, same_or_null_iff c.from_previous_hash (through_hash_of (last? previous)))

or_invalid-accepted :
    (r : RetentionResult) → or_invalid r ≡ ok tt → (s : SignatureStatus) × (r ≡ accepted s)
or_invalid-accepted (accepted s) h = (s, refl)
or_invalid-accepted (refused i reason s) h = cc

pub belongs-apart :
    (tenant other : String) (r : AuditRecord)
    → (tenant === other) ≡ false
    → belongs_to other r ≡ true
    → belongs_to tenant r ≡ false
unfolding belongs_to
belongs-apart tenant other r apart h = ground (
  arith,
  same_or_null_iff (tenant_of r.event.scope) (some other),
  same_or_null_iff (tenant_of r.event.scope) (some tenant),
  ===_iff tenant other,
)

base_of-hash : (last : Option Checkpoint) → (base_of last).previous_hash ≡ through_hash_of last
base_of-hash none = refl
base_of-hash (some c) = refl

pub Admits-IsIntact :
    {platform : Platform} {store : Store} {tenant : String} {c : Checkpoint}
    {expected : AuditChainState} {fence : ℕ}
    → Admits platform store tenant c expected fence
    → IsIntact platform c
Admits-IsIntact {platform} {c} a =
    let (status, h) = or_invalid-accepted _ a.verified in accepted-IsIntact platform c no_options h

pub covered-eq :
    (sha256 : Text → String) (tenant : String) (c : Checkpoint) (tip : Tip) (rs : List AuditRecord)
    → Linked tip (envelopes sha256 (keep (belongs_to tenant) rs))
    → c.from_sequence ≤ tip.sequence + 1
    → covered tenant c rs ≡ keep (in_range c) (keep (belongs_to tenant) rs)
unfolding covered
covered-eq sha256 tenant c tip rs h start = rw (keep-and (belongs_to tenant) (in_range c) rs) (
    sort-Linked sha256 tip (keep (in_range c) (keep (belongs_to tenant) rs))
      (split-Linked sha256 c tip (keep (belongs_to tenant) rs) h start).0)

module _ (platform : Platform) where
  compacted-IsAnchored :
      (store : Store) (tenant : String) (c : Checkpoint) (expected : AuditChainState) (fence : ℕ)
      (after : Store)
      → IsAnchored platform.sha256
          (records_of store tenant)
          (state_of store tenant)
          (last? (checkpoints_of store tenant))
      → Compacts platform store tenant c expected fence after
      → IsAnchored platform.sha256
          (keep (λ r. not (in_range c r)) (records_of store tenant))
          (record (state_of store tenant) {
            minimum_retained_sequence = c.through_sequence + 1;
            latest_checkpoint_hash = some c.hash;
          })
          (some c)
  compacted-IsAnchored store tenant c expected fence after a k =
      crop-IsAnchored platform.sha256 c a start.0 counted hash
    where
      start :
          (c.from_sequence ≡ (state_of store tenant).minimum_retained_sequence)
          × (c.from_previous_hash ≡ through_hash_of (last? (checkpoints_of store tenant)))
      start = continues-facts c _ _ k.admits.continued

      base : Tip
      base = base_of (last? (checkpoints_of store tenant))

      same : covered tenant c store.records ≡ keep (in_range c) (records_of store tenant)
      same =
          covered-eq platform.sha256 tenant c base store.records a.linked
            (omega (arith, start.0, a.minimum))

      counted :
          length (keep (in_range c) (records_of store tenant)) + c.from_sequence
          ≡ c.through_sequence + 1
      counted = omega (
        arith,
        ap length same,
        k.count,
        (is_checkpoint_input-range c.input (Admits-IsIntact k.admits).input).1,
      )

      hash :
          (end_of base
            (envelopes platform.sha256 (keep (in_range c) (records_of store tenant)))).previous_hash
          ≡ some c.through_hash
      hash =
          check_covered-end platform c.from_sequence base
            (keep (in_range c) (records_of store tenant))
            (rw (base_of-hash (last? (checkpoints_of store tenant)), ← start.1, ← same) k.intact)

  crop_at-IsAnchored :
      (store : Store) (tenant : String) (c : Checkpoint) (expected : AuditChainState) (fence : ℕ)
      (after : Store)
      → IsSound platform.sha256 store
      → Compacts platform store tenant c expected fence after
      → (other : String)
      → let cropped = crop platform store tenant c (state_of store tenant) in
        IsAnchored platform.sha256
          (records_of cropped other)
          (state_of cropped other)
          (last? (checkpoints_of cropped other))
  unfolding crop retained
  crop_at-IsAnchored store tenant c expected fence after v k other =
      rw (get-set store.chain_states tenant, get-set store.checkpoints tenant)
        (elim (Bool-cases (tenant === other)) [
          | inl here ↦
              rw
                (
                  here,
                  ← (===_iff tenant other).0 here,
                  keep-drop (belongs_to tenant) (in_range c) store.records,
                  last?-concat (checkpoints_of store tenant) c,
                )
                (compacted-IsAnchored store tenant c expected fence after (v.anchored tenant) k)
          | inr apart ↦
              rw
                (
                  apart,
                  keep-apart (belongs_to tenant) (in_range c) (belongs_to other)
                      (λ r. belongs-apart tenant other r apart) store.records,
                )
                (v.anchored other)
        ])

  crop-owned :
      (store : Store) (tenant : String) (c : Checkpoint)
      → IsSound platform.sha256 store
      → c.tenant_id ≡ tenant
      → (other : String) (d : Checkpoint)
      → last? (checkpoints_of (crop platform store tenant c (state_of store tenant)) other) ≡ some d
      → d.tenant_id ≡ other
  unfolding crop
  crop-owned store tenant c v same other d h = elim (Bool-cases (tenant === other)) [
    | inl here ↦
        let last : some c ≡ some d =
          rw (get-set store.checkpoints tenant, here, last?-concat (checkpoints_of store tenant) c)
            at h in
        let owner : c.tenant_id ≡ d.tenant_id = cc in
        sym owner ∙ same ∙ (===_iff tenant other).0 here
    | inr apart ↦ v.owned other d (rw (get-set store.checkpoints tenant, apart) at h)
  ]

  pub compacted-IsSound :
      (store : Store) (tenant : String) (c : Checkpoint) (expected : AuditChainState) (fence : ℕ)
      (after : Store)
      → IsSound platform.sha256 store
      → Compacts platform store tenant c expected fence after
      → IsSound platform.sha256 after
  compacted-IsSound store tenant c expected fence after v k = rw k.moved (record {
    anchored = crop_at-IsAnchored store tenant c expected fence after v k;
    supported =
        unfold crop retained in
        All-keep (λ r. IsSupported (audit_envelope platform.sha256 r))
          (λ r. not (belongs_to tenant r && in_range c r)) store.records v.supported;
    owned = crop-owned store tenant c v k.admits.tenant_id;
  })
