-- ===== src/Outbox/File.antt =====
-- The file queue, storage/src/outbox-file.ts. The state is the array of rows in `entries.json`, `[]` where
-- the file is missing; each operation is one step under the lock. A throw leaves the file as it was.
-- `id_le` is `String.prototype.localeCompare` of two ids, `a.localeCompare(b) <= 0`.
use veritio.Prelude.{
  ℕ, suc, ◌+◌, String, Option, none, some, List, [], ◌∷◌, ◌++◌, Bool, true, false, not, ◌&&◌, ◌||◌,
  ltb, leb, ◌==◌, ◌===◌, if◌then◌else◌, any, keep, take,
}
use veritio.Prelude.Results.{Result, ok, throws, require, ◌>>=◌, ◌>>◌}
use veritio.Outbox.{
  OutboxStatus, Entry, EnqueueInput, OutboxListOptions, ClaimOptions, OutboxError, same_status,
  body_bytes, same_enqueue_input, create_pending_entry, validate_stored_entry,
  validate_list_options, find_entry, iso_le,
}

-- The loop of `readEntries`.
unfoldable pub validate_entries : List Entry → Result OutboxError (Unit {0})
validate_entries [] = ok tt
validate_entries (e ∷ es) = do validate_stored_entry e; validate_entries es

abbrev pub undelivered_bytes : Entry → ℕ
undelivered_bytes e =
    if same_status e.status OutboxStatus.dispatched then 0 else body_bytes e.payload

unfoldable pub backlog : List Entry → ℕ
backlog [] = 0
backlog (e ∷ es) = undelivered_bytes e + backlog es

abbrev pub has_room : Option ℕ → ℕ → Bool
has_room none bytes = true
has_room (some max) bytes = leb bytes max

module _ (id_le : String → String → Bool) where
  -- `compareEntries(left, right) <= 0`
  unfoldable pub compare_entries : Entry → Entry → Bool
  compare_entries left right =
      not (iso_le right.created_at left.created_at)
      || left.created_at == right.created_at && id_le left.id right.id

  unfoldable pub insert_sorted : Entry → List Entry → List Entry
  insert_sorted e [] = e ∷ []
  insert_sorted e (x ∷ xs) = elim (compare_entries e x) [
    | true ↦ e ∷ (x ∷ xs)
    | false ↦ x ∷ insert_sorted e xs
  ]

  -- `Array.prototype.sort`, which is stable.
  unfoldable pub sort_entries : List Entry → List Entry
  unfolding insert_sorted
  sort_entries [] = []
  sort_entries (x ∷ xs) = insert_sorted x (sort_entries xs)

  unfoldable pub filter_entries : List Entry → OutboxListOptions → List Entry
  filter_entries entries o =
      let scoped : List Entry = elim o.tenant_id [
        | none ↦ entries
        | some tenant ↦ keep (λ e. e.tenant_id === tenant) entries
      ] in
      elim o.limit [ none ↦ sort_entries scoped | some n ↦ take n (sort_entries scoped) ]

  unfoldable pub read_entries : List Entry → Result OutboxError (List Entry)
  read_entries file = do validate_entries file; ok (sort_entries file)

  -- `tx.enqueue` once the row is made: a repeat answers the stored row.
  unfoldable pub stage_entry :
      Option ℕ → List Entry → Entry → Result OutboxError (Entry × List Entry)
  stage_entry max_queued_bytes staged entry = elim (find_entry staged entry.id) [
    | some existing ↦ do
      require (same_enqueue_input existing entry) OutboxError.idempotency_conflict
      ok (existing, staged)
    | none ↦ do
      require (has_room max_queued_bytes (backlog staged + body_bytes entry.payload))
          OutboxError.queue_full
      ok (entry, sort_entries (staged ++ entry ∷ []))
  ]

  -- `tx.enqueue` on the staged rows.
  unfoldable pub enqueue :
      Option ℕ → List Entry → EnqueueInput → (now : ℕ) → Result OutboxError (Entry × List Entry)
  enqueue max_queued_bytes staged input now = do
    entry ← create_pending_entry input now
    stage_entry max_queued_bytes staged entry

-- The callback of a transaction: it enqueues, sees the answer, and goes on, returns or throws.
pub data Callback : Type 0 where
  returns : Callback
  fails : Callback
  enqueues : EnqueueInput → (now : ℕ) → (Result OutboxError Entry → Callback) → Callback

module _ (id_le : String → String → Bool) where
  unfoldable pub run_callback : Option ℕ → List Entry → Callback → Result OutboxError (List Entry)
  run_callback max_queued_bytes staged Callback.returns = ok staged
  run_callback max_queued_bytes staged Callback.fails = throws OutboxError.callback_failed
  run_callback max_queued_bytes staged (Callback.enqueues input now next) =
      elim (enqueue id_le max_queued_bytes staged input now) [
        | ok done ↦ run_callback max_queued_bytes done.1 (next (ok done.0))
        | throws e ↦ run_callback max_queued_bytes staged (next (throws e))
      ]

  unfoldable pub transaction : Option ℕ → List Entry → Callback → Result OutboxError (List Entry)
  transaction max_queued_bytes file run = do
    entries ← read_entries id_le file
    staged ← run_callback max_queued_bytes entries run
    ok (sort_entries id_le staged)

  unfoldable pub list : List Entry → OutboxListOptions → Result OutboxError (List Entry)
  list file o = do
    validate_list_options o
    entries ← read_entries id_le file
    ok (filter_entries id_le entries o)

-- Whether a tenant has a paused row.
unfoldable pub is_paused_tenant : List Entry → String → Bool
is_paused_tenant entries tenant =
    any (λ e. same_status e.status OutboxStatus.paused && e.tenant_id === tenant) entries

-- A lease that has not run out.
unfoldable pub is_active : ℕ → Entry → Bool
is_active now e = same_status e.status OutboxStatus.leased && not (iso_le e.available_at now)

unfoldable pub has_active_lease : ℕ → List Entry → String → Bool
has_active_lease now entries tenant = any (λ e. is_active now e && e.tenant_id === tenant) entries

abbrev pub is_due : ℕ → Entry → Bool
is_due now e =
    (same_status e.status OutboxStatus.pending || same_status e.status OutboxStatus.leased)
    && iso_le e.available_at now

abbrev pub is_selected : Option String → Entry → Bool
is_selected none e = true
is_selected (some tenant) e = e.tenant_id === tenant

abbrev pub holds : List String → String → Bool
holds tenants tenant = any (λ t. t === tenant) tenants

module _ (id_le : String → String → Bool) where
  unfoldable pub list_dispatchable :
      List Entry → OutboxListOptions → (now : ℕ) → Result OutboxError (List Entry)
  list_dispatchable file o now = do
    validate_list_options o
    entries ← read_entries id_le file
    let due =
        keep
          (λ e.
            not (is_paused_tenant entries e.tenant_id)
            && same_status e.status OutboxStatus.pending
            && iso_le e.available_at now)
          entries
    ok (filter_entries id_le due o)

unfoldable pub lease : ClaimOptions → ℕ → Entry → Entry
lease o now e = record e {
  status = OutboxStatus.leased;
  lease_id = some o.lease_id;
  lease_expires_at = some (now + o.lease_ms);
  available_at = now + o.lease_ms;
  updated_at = now;
}

unfoldable pub is_candidate : ClaimOptions → ℕ → (String → Bool) → Entry → Bool
is_candidate o now blocked e =
    not (blocked e.tenant_id) && is_due now e && is_selected o.tenant_id e

-- What the loop over the candidates does with a row.
pub data ClaimStep : Type 0 where
  skips stops takes : ClaimStep

module _ (o : ClaimOptions) (now : ℕ) (blocked : String → Bool) where
  -- `claimed` has the tenants that the pass has claimed for, `count` the claims and `bytes` their bytes.
  unfoldable pub claim_step : (claimed : List String) (count bytes : ℕ) → Entry → ClaimStep
  claim_step claimed count bytes e =
      if not (is_candidate o now blocked e)
      then ClaimStep.skips
      else if leb o.limit count
      then ClaimStep.stops
      else if holds claimed e.tenant_id
      then ClaimStep.skips
      else if ltb o.max_payload_bytes (bytes + body_bytes e.payload)
      then ClaimStep.stops
      else ClaimStep.takes

  -- The rows after the loop, and the claims. The candidates have the order of the sorted rows.
  unfoldable pub claim_rows :
      (claimed : List String) (count bytes : ℕ) → List Entry → List Entry × List Entry
  claim_rows claimed count bytes [] = ([], [])
  claim_rows claimed count bytes (e ∷ es) = elim (claim_step claimed count bytes e) [
    | ClaimStep.skips ↦ let rest = claim_rows claimed count bytes es in (e ∷ rest.0, rest.1)
    | ClaimStep.stops ↦ (e ∷ es, [])
    | ClaimStep.takes ↦
        let rest =
          claim_rows (e.tenant_id ∷ claimed) (suc count) (bytes + body_bytes e.payload) es in
        (lease o now e ∷ rest.0, lease o now e ∷ rest.1)
  ]
