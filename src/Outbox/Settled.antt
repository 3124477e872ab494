-- ===== src/Outbox/Settled.antt =====
-- The settlements of the file queue (storage/src/outbox-file.ts): `markDispatched` and `markFailed` need
-- the lease of the row, and use it up.
use veritio.Prelude.{
  ℕ, ◌≡◌, refl, sym, ap, String, Option, none, some, List, Bool, true, false, not, same_or_null,
  same_or_null_iff, inl, inr, Bool-cases, Each, Each-Pairwise, ◌∙◌,
}
use veritio.Prelude.Text.{is_blank}
use veritio.Prelude.Results.{
  Result, ok, throws, >>=-eq-ok, require-eq-ok, require-eq-ok_last, ok-injective, ok-injective_pair,
}
use veritio.Outbox.{
  OutboxStatus, Entry, Failure, OutboxError, DeliveryDisposition, same_status, find_entry,
  assert_lease, clear_lease, resolve_disposition,
}
use veritio.Outbox.File.{sort_entries, read_entries}
use veritio.Outbox.Settle.{
  FailOptions, update, settle_dispatched, settle_failed, place, settle, mark_dispatched,
  mark_failed,
}
use veritio.Outbox.Calls.{Call, call, update-Each}
use veritio.Outbox.Evidence.{HasUuid}
use veritio.Outbox.Rows.{read-eq-ok, read-IsStored, Pairwise-sort}
use veritio.Outbox.Queue.{HasOtherId, HasOtherId-flip, IsQueue, call-IsQueue}
use veritio.Outbox.Lookup.{find-sort}
use veritio.Outbox.Update.{update-eq-ok, update-throws}

-- The two ways to settle a row.
pub data Settlement : Type 0 where
  dispatched : (lease_id : Option String) → (at : ℕ) → Settlement
  failed : Failure → FailOptions → (fresh : String) → Settlement

unfoldable pub settle_row : Settlement → Entry → Result OutboxError Entry
settle_row (Settlement.dispatched lease_id at) e = settle_dispatched lease_id at e
settle_row (Settlement.failed failure o fresh) e = settle_failed failure o fresh e

abbrev pub lease_of : Settlement → Option String
lease_of (Settlement.dispatched lease_id at) = lease_id
lease_of (Settlement.failed failure o fresh) = o.lease_id

-- A row after its settlement.
pub record IsSettled (e : Entry) (x : Entry) : Type 0 where
  pub id : x.id ≡ e.id
  pub unleased : same_status x.status OutboxStatus.leased ≡ false
  pub no_lease : x.lease_id ≡ none

place-IsSettled :
    (o : FailOptions) (fresh : String) (d : DeliveryDisposition) (e : Entry)
    → IsSettled e (clear_lease (place o fresh d e))
unfolding clear_lease
place-IsSettled o fresh DeliveryDisposition.retry e = record {
  id = refl;
  unleased = refl;
  no_lease = refl;
}
place-IsSettled o fresh DeliveryDisposition.pause e = record {
  id = refl;
  unleased = refl;
  no_lease = refl;
}
place-IsSettled o fresh DeliveryDisposition.reject e = record {
  id = refl;
  unleased = refl;
  no_lease = refl;
}

pub settle_row-eq-ok :
    (s : Settlement) (e x : Entry)
    → settle_row s e ≡ ok x
    → (assert_lease e (lease_of s) ≡ ok tt) × IsSettled e x
unfolding settle_row settle_dispatched settle_failed clear_lease
settle_row-eq-ok (Settlement.dispatched lease_id at) e x h =
    let (u, owned, done) = >>=-eq-ok (assert_lease e lease_id) _ h in
    (owned, rw (← ok-injective done) (record { id = refl; unleased = refl; no_lease = refl }))
settle_row-eq-ok (Settlement.failed failure o fresh) e x h =
    let (u, owned, h1) = >>=-eq-ok (assert_lease e o.lease_id) _ h in
    let (d, chosen, done) = >>=-eq-ok (resolve_disposition o.retryable o.disposition) _ h1 in
    (
      owned,
      rw (← ok-injective done) (
          let p = place-IsSettled o fresh d _ in
          record { id = p.id; unleased = p.unleased; no_lease = p.no_lease }),
    )

-- A lease is good for the row that it leased, and for no other.
pub owned-eq-ok :
    (e : Entry) (lease_id : String)
    → assert_lease e (some lease_id) ≡ ok tt
    → (same_status e.status OutboxStatus.leased ≡ true) × (e.lease_id ≡ some lease_id)
unfolding assert_lease
owned-eq-ok e lease_id h = elim (Bool-cases (same_status e.status OutboxStatus.leased)) [
  | inl leased ↦
      let test =
        require-eq-ok_last (same_or_null (some lease_id) e.lease_id)
          OutboxError.lease_does_not_match (rw (leased, assert_lease) at h) in
      (leased, sym ((same_or_null_iff (some lease_id) e.lease_id).0 test))
  | inr free ↦ let no = rw (free, assert_lease) at h in cc
]

unleased-throws :
    (s : Settlement) (e : Entry) (lease_id : String)
    → lease_of s ≡ some lease_id
    → same_status e.status OutboxStatus.leased ≡ false
    → settle_row s e ≡ throws OutboxError.lease_not_active
unfolding settle_row settle_dispatched settle_failed assert_lease
unleased-throws (Settlement.dispatched none at) e lease_id own free = cc
unleased-throws (Settlement.dispatched (some l) at) e lease_id own free = rw free refl
unleased-throws (Settlement.failed failure o fresh) e lease_id own free = rw (free, own) refl

module _ (id_le : String → String → Bool) where
  unfoldable pub mark :
      List Entry → (id : String) → Settlement → Result OutboxError (Entry × List Entry)
  mark file id (Settlement.dispatched lease_id at) = mark_dispatched id_le file id lease_id at
  mark file id (Settlement.failed failure o fresh) = mark_failed id_le file id failure o fresh

  mark-settle :
      (file : List Entry) (id : String) (s : Settlement)
      → mark file id s ≡ settle id_le (settle_row s) file id
  unfolding mark mark_dispatched mark_failed settle_row settle
  mark-settle file id (Settlement.dispatched lease_id at) = refl
  mark-settle file id (Settlement.failed failure o fresh) = refl

  -- What a settlement that returns has found and left.
  pub record Settles (file : List Entry) (id : String) (s : Settlement) (x : Entry)
      (after : List Entry) : Type 0 where
    pub row : Entry
    pub filled : not (is_blank id) ≡ true
    pub found : find_entry (sort_entries id_le file) id ≡ some row
    pub settled : settle_row s row ≡ ok x
    pub rows : List Entry
    pub place : find_entry rows id ≡ some x
    pub moved : after ≡ sort_entries id_le rows
    pub each : Each (λ e y. y.id ≡ e.id) (sort_entries id_le file) rows

  pub mark-eq-ok :
      (file : List Entry) (id : String) (s : Settlement) (x : Entry) (after : List Entry)
      → mark file id s ≡ ok (x, after)
      → Settles file id s x after
  unfolding settle
  mark-eq-ok file id s x after h =
      let (filled, h1) =
        require-eq-ok (not (is_blank id)) OutboxError.id_required _
          (rw (mark-settle file id s, settle) at h) in
      let (entries, read, h2) = >>=-eq-ok (read_entries id_le file) _ h1 in
      let (stored, sorted) = read-eq-ok id_le file entries read in
      let (rest, changed, done) = >>=-eq-ok (update (settle_row s) id entries) _ h2 in
      let (one, two) = ok-injective_pair done in
      let one' : rest.0 ≡ x = one in
      let two' : sort_entries id_le rest.1 ≡ after = two in
      let names : (e y : Entry) → settle_row s e ≡ ok y → y.id ≡ e.id =
        λ e y k. (settle_row-eq-ok s e y k).1.id in
      let (row, found, moved, now) =
        update-eq-ok (settle_row s) id entries rest.0 rest.1 names changed in
      record {
        row = row;
        filled = filled;
        found = rw (← sorted) found;
        settled = rw moved (ap ok one');
        rows = rest.1;
        place = rw now (ap some one');
        moved = sym two';
        each = rw (← sorted) (
            update-Each (λ e y. y.id ≡ e.id) (settle_row s) id entries rest.0 rest.1 (λ e. refl)
              names changed);
      }

-- The settlement as a call on the queue.
abbrev pub call_of : (id : String) → Settlement → Call
call_of id (Settlement.dispatched lease_id at) = Call.dispatches id lease_id at
call_of id (Settlement.failed failure o fresh) = Call.fails id failure o fresh

module _ (id_le : String → String → Bool) where
  call-mark :
      (max : Option ℕ) (file : List Entry) (id : String) (s : Settlement) (x : Entry)
      (after : List Entry)
      → mark id_le file id s ≡ ok (x, after)
      → call id_le max file (call_of id s) ≡ ok after
  unfolding call mark
  call-mark max file id (Settlement.dispatched lease_id at) x after h = rw h refl
  call-mark max file id (Settlement.failed failure o fresh) x after h = rw h refl

  settled-found :
      (file : List Entry) (id : String) (s : Settlement) (x : Entry) (after : List Entry)
      → IsQueue file
      → Settles id_le file id s x after
      → find_entry (sort_entries id_le after) id ≡ some x
  settled-found file id s x after v k =
      let apart =
        Each-Pairwise (λ e y. y.id ≡ e.id) HasOtherId HasOtherId
          (λ a b x y f g h same. h (sym f ∙ same ∙ g)) (sort_entries id_le file) k.rows k.each
          (Pairwise-sort id_le HasOtherId HasOtherId-flip file v.apart) in
      rw
        (
          k.moved,
          find-sort id_le (sort_entries id_le k.rows) id
              (Pairwise-sort id_le HasOtherId HasOtherId-flip k.rows apart),
          find-sort id_le k.rows id apart,
        )
        k.place

  -- On a queue of valid rows with unique ids: a settlement that names a lease and returns found its row
  -- leased under exactly that lease, and left it with no lease; a later settlement of the row that
  -- names a lease, the same or another, throws that the lease is not active.
  pub settled_once :
      (file : List Entry) (id : String) (s t : Settlement) (x : Entry) (after : List Entry)
      (l m : String)
      → IsQueue file
      → HasUuid (call_of id s)
      → lease_of s ≡ some l
      → mark id_le file id s ≡ ok (x, after)
      → lease_of t ≡ some m
      → ((row : Entry) × (find_entry file id ≡ some row)
          × (same_status row.status OutboxStatus.leased ≡ true)
          × (row.lease_id ≡ some l))
        × (same_status x.status OutboxStatus.leased ≡ false)
        × (x.lease_id ≡ none)
        × (mark id_le after id t ≡ throws OutboxError.lease_not_active)
  unfolding settle
  settled_once file id s t x after l m v fresh own h again =
      let k = mark-eq-ok id_le file id s x after h in
      let (owned, done) = settle_row-eq-ok s k.row x k.settled in
      let (leased, named) = owned-eq-ok k.row l (rw (← own) owned) in
      let w =
        call-IsQueue id_le none file (call_of id s) after fresh v
          (call-mark none file id s x after h) in
      let refused =
        update-throws (settle_row t) id (sort_entries id_le after) x OutboxError.lease_not_active
          (settled-found file id s x after v k) (unleased-throws t x m again done.unleased) in
      (
        (k.row, rw (← find-sort id_le file id v.apart) k.found, leased, named),
        done.unleased,
        done.no_lease,
        rw
            (
              mark-settle id_le after id t,
              settle,
              k.filled,
              read-IsStored id_le after w.stored,
              refused,
            )
            refl,
      )
