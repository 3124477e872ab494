-- ===== src/Store/Outcomes.antt =====
-- What an append of `MemoryAuditStore` that returns has done: stored a record, or replayed one.
use veritio.Prelude.{
  ◌≤◌, ==→≡, leb→le, ℕ, ◌+◌, ◌≡◌, refl, sym, String, Option, none, some, true, false, not, ===_iff,
  arith, Bool-cases, inl, inr, ◌⊎◌,
}
use veritio.Prelude.Text.{Text, is_blank}
use veritio.Prelude.Dict.{get}
use veritio.Prelude.Results.{Result, ok, require-eq-ok, ◌>>=◌, >>=-eq-ok, ok-injective_pair}
use veritio.Protocol.{AuditEvent, AuditRecord, tenant_of}
use veritio.Retention.Formats.{max_safe_integer}
use veritio.Store.{
  Store, StoreError, IdempotencyEntry, AuditChainState, state_of, chain_state, is_audit_chain_state,
  tenant_required,
}
use veritio.Store.Append.{
  AppendOptions, require_tenant, hash_idempotency_key, or_default, expects, replay, hash_event,
  seal, insert, append_to, append_new, append_keyed, append, advance_from, with_fence,
  advance_retention_policy_fence,
}

require_tenant-eq-ok :
    (scope : Option String) (tenant : String)
    → require_tenant scope ≡ ok tenant
    → (scope ≡ some tenant) × (is_blank tenant ≡ false)
require_tenant-eq-ok none tenant h = cc
require_tenant-eq-ok (some t) tenant h = ground arith

-- What follows a read of the chain state runs on the tenant's state, which is coherent.
pub chain_state-bind :
    {B : Type 0} (store : Store) (tenant : String) (k : AuditChainState → Result StoreError B)
    {b : B}
    → (chain_state store tenant >>= k) ≡ ok b
    → (is_audit_chain_state (state_of store tenant) ≡ true) × (k (state_of store tenant) ≡ ok b)
unfolding chain_state
chain_state-bind store tenant k h =
    elim (Bool-cases (is_audit_chain_state (state_of store tenant))) [
      | inl coherent ↦ (coherent, rw (coherent) at h)
      | inr broken ↦ let stop = rw (broken) at h in cc
    ]

replay-eq-ok :
    (existing : IdempotencyEntry) (event_hash : String) (r : AuditRecord)
    → replay existing event_hash ≡ ok r
    → (existing.event_canonical_hash ≡ event_hash) × (existing.stored ≡ some r)
unfolding replay
replay-eq-ok existing event_hash r h =
    ground (arith, ===_iff existing.event_canonical_hash event_hash)

advance_from-eq-ok :
    (current : AuditChainState) (store : Store) (tenant : String) (expected next : ℕ)
    (after : Store)
    → advance_from current store tenant expected ≡ ok (next, after)
    → (current.retention_policy_fence ≡ expected)
      × (next ≡ current.retention_policy_fence + 1)
      × (next ≤ max_safe_integer)
      × (after ≡ with_fence store tenant current next)
unfolding advance_from
advance_from-eq-ok current store tenant expected next after h =
    let (same, h1) = require-eq-ok _ _ _ h in
    let (room, h2) = require-eq-ok _ _ _ h1 in
    let (value, moved) = ok-injective_pair h2 in
    (==→≡ _ _ same, sym value, rw (← value) (leb→le _ _ room), rw (← value) (sym moved))

-- What an advance of the fence that returns has done.
pub advance-eq-ok :
    (store : Store) (tenant : String) (expected next : ℕ) (after : Store)
    → advance_retention_policy_fence store tenant expected ≡ ok (next, after)
    → ((state_of store tenant).retention_policy_fence ≡ expected)
      × (next ≡ (state_of store tenant).retention_policy_fence + 1)
      × (next ≤ max_safe_integer)
      × (after ≡ with_fence store tenant (state_of store tenant) next)
unfolding advance_retention_policy_fence
advance-eq-ok store tenant expected next after h =
    let (filled, h1) = require-eq-ok (not (is_blank tenant)) tenant_required _ h in
    let (fence, h2) = require-eq-ok _ _ _ h1 in
    let (coherent, h3) = chain_state-bind store tenant _ h2 in
    advance_from-eq-ok (state_of store tenant) store tenant expected next after h3

module _ (sha256 : Text → String) where
  -- How an append that stores a record came about.
  pub record Inserts (store : Store) (event : AuditEvent) (options : AppendOptions) (now : String)
      (r : AuditRecord) (after : Store) : Type 0 where
    pub tenant : String
    pub key_hash : String
    pub scoped : tenant_of event.scope ≡ some tenant
    pub filled : is_blank tenant ≡ false
    pub key :
        hash_idempotency_key sha256 tenant (or_default event.id options.idempotency_key)
        ≡ ok key_hash
    pub fresh : get store.idempotency key_hash ≡ none
    pub coherent : is_audit_chain_state (state_of store tenant) ≡ true
    pub expected :
        expects options.expected_previous_hash (state_of store tenant).authoritative_tip_hash ≡ true
    pub sealed : r ≡ seal sha256 event (state_of store tenant) now key_hash
    pub moved : after ≡ insert sha256 store tenant (state_of store tenant) r

  -- How an append that replays a record came about.
  pub record Replays (store : Store) (event : AuditEvent) (options : AppendOptions)
      (r : AuditRecord) (after : Store) : Type 0 where
    pub tenant : String
    pub key_hash : String
    pub existing : IdempotencyEntry
    pub scoped : tenant_of event.scope ≡ some tenant
    pub filled : is_blank tenant ≡ false
    pub key :
        hash_idempotency_key sha256 tenant (or_default event.id options.idempotency_key)
        ≡ ok key_hash
    pub known : get store.idempotency key_hash ≡ some existing
    pub same_event : existing.event_canonical_hash ≡ hash_event sha256 event
    pub there : existing.stored ≡ some r
    pub unmoved : after ≡ store

  append_to-eq-ok :
      (state : AuditChainState) (store : Store) (tenant key_hash : String) (event : AuditEvent)
      (options : AppendOptions) (now : String) (r : AuditRecord) (after : Store)
      → append_to sha256 state store tenant key_hash event options now ≡ ok (r, after)
      → (expects options.expected_previous_hash state.authoritative_tip_hash ≡ true)
        × (r ≡ seal sha256 event state now key_hash)
        × (after ≡ insert sha256 store tenant state r)
  unfolding append_to
  append_to-eq-ok state store tenant key_hash event options now r after h =
      elim (Bool-cases (expects options.expected_previous_hash state.authoritative_tip_hash)) [
        | inl fits ↦
            let (sealed, moved) = ok-injective_pair (rw (fits, append_to) at h) in
            (fits, sym sealed, rw (← sealed) (sym moved))
        | inr stale ↦ let stop = rw (stale, append_to) at h in cc
      ]

  append_keyed-eq-ok :
      (entry : Option IdempotencyEntry) (store : Store) (tenant key_hash : String)
      (event : AuditEvent) (options : AppendOptions) (now : String) (r : AuditRecord)
      (after : Store)
      → append_keyed sha256 entry store tenant key_hash event options now ≡ ok (r, after)
      → ((entry ≡ none)
          × (is_audit_chain_state (state_of store tenant) ≡ true)
          × (expects options.expected_previous_hash (state_of store tenant).authoritative_tip_hash
              ≡ true)
          × (r ≡ seal sha256 event (state_of store tenant) now key_hash)
          × (after ≡ insert sha256 store tenant (state_of store tenant) r))
        ⊎ ((existing : IdempotencyEntry) × (entry ≡ some existing)
            × (existing.event_canonical_hash ≡ hash_event sha256 event)
            × (existing.stored ≡ some r)
            × (after ≡ store))
  unfolding append_keyed append_new
  append_keyed-eq-ok none store tenant key_hash event options now r after h =
      let (coherent, h1) = chain_state-bind store tenant _ h in
      let (expected, sealed, moved) =
        append_to-eq-ok (state_of store tenant) store tenant key_hash event options now r after
          h1 in
      inl (refl, coherent, expected, sealed, moved)
  append_keyed-eq-ok (some existing) store tenant key_hash event options now r after h =
      let (r', replayed, e) = >>=-eq-ok (replay existing (hash_event sha256 event)) _ h in
      let (same, there) = replay-eq-ok existing _ r' replayed in
      let (one, two) = ok-injective_pair e in inr (existing, refl, same, rw one at there, sym two)

  pub append-eq-ok :
      (store : Store) (event : AuditEvent) (options : AppendOptions) (now : String)
      (r : AuditRecord) (after : Store)
      → append sha256 store event options now ≡ ok (r, after)
      → Inserts store event options now r after ⊎ Replays store event options r after
  unfolding append
  append-eq-ok store event options now r after h =
      let (tenant, scope, h1) = >>=-eq-ok (require_tenant (tenant_of event.scope)) _ h in
      let (scoped, filled) = require_tenant-eq-ok _ tenant scope in
      let (key_hash, key, h2) = >>=-eq-ok (hash_idempotency_key sha256 tenant _) _ h1 in
      elim (append_keyed-eq-ok _ store tenant key_hash event options now r after h2) [
        | inl (fresh, coherent, expected, sealed, moved) ↦ inl (record {
          tenant = tenant;
          key_hash = key_hash;
          scoped = scoped;
          filled = filled;
          key = key;
          fresh = fresh;
          coherent = coherent;
          expected = expected;
          sealed = sealed;
          moved = moved;
        })
        | inr (existing, known, same_event, there, unmoved) ↦ inr (record {
          tenant = tenant;
          key_hash = key_hash;
          existing = existing;
          scoped = scoped;
          filled = filled;
          key = key;
          known = known;
          same_event = same_event;
          there = there;
          unmoved = unmoved;
        })
      ]
