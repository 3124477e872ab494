-- ===== src/Outbox/Enqueue.antt =====
-- What the transactions of the file queue (storage/src/outbox-file.ts) do: each enqueue adds one valid
-- pending row with an id of its own, within the byte ceiling, or changes nothing.
use veritio.Prelude.{
  ℕ, ◌+◌, ◌≡◌, ◌≢◌, refl, String, Option, none, some, List, [], ◌∷◌, ◌++◌, Bool, true, not, ◌===◌,
  ===_iff, inl, inr, Bool-cases, Option-cases, All, All-append, All-map, Pairwise, ◌⊎◌,
}
use veritio.Prelude.Text.{is_blank}
use veritio.Prelude.Results.{
  ok, throws, >>=-eq-ok, require-eq-ok, ok-injective, ok-injective_pair, Result-cases,
}
use veritio.Outbox.{
  OutboxStatus, Entry, EnqueueInput, OutboxError, validate_payload, body_bytes, same_enqueue_input,
  create_pending_entry, find_entry, has_lease_metadata,
}
use veritio.Outbox.File.{
  sort_entries, read_entries, backlog, has_room, stage_entry, enqueue, Callback, run_callback,
  transaction,
}
use veritio.Outbox.Rows.{IsStored, read-eq-ok, All-sort, Pairwise-sort, Pairwise-add}

-- What a new row has.
pub record IsNew (input : EnqueueInput) (now : ℕ) (e : Entry) : Type 0 where
  pub stored : IsStored e
  pub pending : e.status ≡ OutboxStatus.pending
  pub id : e.id ≡ input.id
  pub tenant_id : e.tenant_id ≡ input.tenant_id
  pub created_at : e.created_at ≡ now

pub create-IsNew :
    (input : EnqueueInput) (now : ℕ) (e : Entry)
    → create_pending_entry input now ≡ ok e
    → IsNew input now e
unfolding create_pending_entry has_lease_metadata
create-IsNew input now e h =
    let (t, h1) =
      require-eq-ok (not (is_blank input.tenant_id)) OutboxError.tenant_id_required _ h in
    let (i, h2) = require-eq-ok (not (is_blank input.id)) OutboxError.id_required _ h1 in
    let (u, p, done) = >>=-eq-ok (validate_payload input.payload (some input.tenant_id)) _ h2 in
    rw (← ok-injective done) (record {
      stored = record {
        id = i;
        tenant = t;
        payload = p;
        lease = refl;
        paused = refl;
        circuit = refl;
      };
      pending = refl;
      id = refl;
      tenant_id = refl;
      created_at = refl;
    })

find-eq-none : (es : List Entry) (id : String) → find_entry es id ≡ none → All (λ e. e.id ≢ id) es
find-eq-none [] id h = tt
find-eq-none (e ∷ es) id h = elim (Bool-cases (e.id === id)) [
  | inl here ↦ let found = rw here at h in cc
  | inr apart ↦
      (λ same. let here = (===_iff e.id id).1 same in cc, find-eq-none es id (rw apart at h))
]

module _ (id_le : String → String → Bool) (max_queued_bytes : Option ℕ) where
  -- An enqueue that returns: it repeats a stored row, or adds a new one.
  pub record Adds (staged : List Entry) (input : EnqueueInput) (now : ℕ) (e : Entry)
      (after : List Entry) : Type 0 where
    pub created : create_pending_entry input now ≡ ok e
    pub fresh : IsNew input now e
    pub absent : All (λ x. x.id ≢ e.id) staged
    pub room : has_room max_queued_bytes (backlog staged + body_bytes e.payload) ≡ true
    pub moved : after ≡ sort_entries id_le (staged ++ e ∷ [])

  pub record Repeats (staged : List Entry) (input : EnqueueInput) (now : ℕ) (e : Entry)
      (after : List Entry) : Type 0 where
    pub entry : Entry
    pub created : create_pending_entry input now ≡ ok entry
    pub found : find_entry staged entry.id ≡ some e
    pub same : same_enqueue_input e entry ≡ true
    pub unmoved : after ≡ staged

  pub enqueue-eq-ok :
      (staged : List Entry) (input : EnqueueInput) (now : ℕ) (e : Entry) (after : List Entry)
      → enqueue id_le max_queued_bytes staged input now ≡ ok (e, after)
      → Repeats staged input now e after ⊎ Adds staged input now e after
  unfolding enqueue stage_entry
  enqueue-eq-ok staged input now e after h =
      let (entry, created, h1) = >>=-eq-ok (create_pending_entry input now) _ h in
      elim (Option-cases (find_entry staged entry.id)) [
        | inl missing ↦
            let (room, done) =
              require-eq-ok (has_room max_queued_bytes (backlog staged + body_bytes entry.payload))
                OutboxError.queue_full _ (rw (missing, stage_entry) at h1) in
            let (one, two) = ok-injective_pair done in
            let same : entry ≡ e = one in
            let moved : sort_entries id_le (staged ++ entry ∷ []) ≡ after = two in
            inr (
              rw (← same, ← moved)
                (record {
                  created = created;
                  fresh = create-IsNew input now entry created;
                  absent = find-eq-none staged entry.id missing;
                  room = room;
                  moved = refl;
                }))
        | inr (existing, found) ↦
            let (same, done) =
              require-eq-ok (same_enqueue_input existing entry) OutboxError.idempotency_conflict _
                (rw (found, stage_entry) at h1) in
            let (one, two) = ok-injective_pair done in
            let one' : existing ≡ e = one in
            let two' : staged ≡ after = two in
            inl (
              rw (← one', ← two')
                (record {
                  entry = entry;
                  created = created;
                  found = found;
                  same = same;
                  unmoved = refl;
                }))
      ]

  -- What every addition keeps holds of the staged rows at the end.
  pub callback-keeps :
      (P : List Entry → Type 0)
      → ((staged : List Entry) (input : EnqueueInput) (now : ℕ) (e : Entry) (after : List Entry)
          → P staged
          → Adds staged input now e after
          → P after)
      → (staged : List Entry) (run : Callback) (final : List Entry) → P staged
      → run_callback id_le max_queued_bytes staged run ≡ ok final
      → P final
  unfolding run_callback
  callback-keeps P adds staged Callback.returns final start h = rw (← ok-injective h) start
  callback-keeps P adds staged Callback.fails final start h = cc
  callback-keeps P adds staged (Callback.enqueues input now next) final start h =
      elim (Result-cases (enqueue id_le max_queued_bytes staged input now)) [
        | inl (done, added) ↦
            callback-keeps P adds done.1 (next (ok done.0)) final
              (elim (enqueue-eq-ok staged input now done.0 done.1 added) [
                | inl r ↦ rw r.unmoved start
                | inr a ↦ adds staged input now done.0 done.1 start a
              ])
              (rw (added, run_callback) at h)
        | inr (e, refused) ↦
            callback-keeps P adds staged (next (throws e)) final start
              (rw (refused, run_callback) at h)
      ]

  -- What sorting and every addition keep, a transaction keeps.
  pub transaction-keeps :
      (P : List Entry → Type 0)
      → ((staged : List Entry) (input : EnqueueInput) (now : ℕ) (e : Entry) (after : List Entry)
          → P staged
          → Adds staged input now e after
          → P after)
      → ((es : List Entry) → P es → P (sort_entries id_le es))
      → (file : List Entry) (run : Callback) (after : List Entry) → P file
      → transaction id_le max_queued_bytes file run ≡ ok after
      → P after
  unfolding transaction
  transaction-keeps P adds sorts file run after start h =
      let (entries, found, h1) = >>=-eq-ok (read_entries id_le file) _ h in
      let (staged, ran, done) = >>=-eq-ok (run_callback id_le max_queued_bytes entries run) _ h1 in
      let (stored, sorted) = read-eq-ok id_le file entries found in
      rw (← ok-injective done)
        (sorts staged (callback-keeps P adds entries run staged (rw sorted (sorts file start)) ran))

  added-Pairwise :
      (R : Entry → Entry → Type 0)
      → ((a b : Entry) → R a b → R b a)
      → ((e x : Entry) → e.status ≡ OutboxStatus.pending → x.id ≢ e.id → R e x)
      → (staged : List Entry) (input : EnqueueInput) (now : ℕ) (e : Entry) (after : List Entry)
      → Pairwise R staged
      → Adds staged input now e after
      → Pairwise R after
  added-Pairwise R flip new staged input now e after start a = rw a.moved (
      Pairwise-sort id_le R flip _ (
        Pairwise-add id_le R flip staged e
          (All-map (λ x. x.id ≢ e.id) (R e) (λ x. new e x a.fresh.pending) staged a.absent) start))

  pub transaction-Pairwise :
      (R : Entry → Entry → Type 0)
      → ((a b : Entry) → R a b → R b a)
      → ((e x : Entry) → e.status ≡ OutboxStatus.pending → x.id ≢ e.id → R e x)
      → (file : List Entry) (run : Callback) (after : List Entry) → Pairwise R file
      → transaction id_le max_queued_bytes file run ≡ ok after
      → Pairwise R after
  transaction-Pairwise R flip new =
      transaction-keeps (Pairwise R) (added-Pairwise R flip new) (Pairwise-sort id_le R flip)

  pub transaction-IsStored :
      (file : List Entry) (run : Callback) (after : List Entry)
      → All IsStored file
      → transaction id_le max_queued_bytes file run ≡ ok after
      → All IsStored after
  transaction-IsStored =
      transaction-keeps (All IsStored)
        (λ staged input now e after start a. rw a.moved (
          All-sort id_le IsStored _
            (All-append IsStored staged (e ∷ []) start (a.fresh.stored, tt))))
        (All-sort id_le IsStored)
