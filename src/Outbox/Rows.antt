-- ===== src/Outbox/Rows.antt =====
-- The rows of the delivery queue: what a stored row has, and how sorting and inserting keep what holds
-- of the rows and of every two of them.
use veritio.Prelude.{
  ℕ, ◌+◌, ◌≡◌, refl, String, some, List, [], ◌∷◌, ◌++◌, Bool, true, false, not, ◌||◌, inl, inr,
  Bool-cases, All, All-map, Each, Pairwise, arith,
}
use veritio.Prelude.Text.{is_blank}
use veritio.Prelude.Results.{ok, >>=-eq-ok, require-eq-ok, require-eq-ok_last, ok-injective}
use veritio.Outbox.{
  OutboxStatus, Entry, OutboxError, same_status, absent, validate_payload, has_lease_metadata,
  has_circuit_id, validate_stored_entry,
}
use veritio.Outbox.File.{
  compare_entries, insert_sorted, sort_entries, validate_entries, read_entries, undelivered_bytes,
  backlog,
}

-- What `validateStoredEntry` asks of a row.
pub record IsStored (e : Entry) : Type 0 where
  pub id : not (is_blank e.id) ≡ true
  pub tenant : not (is_blank e.tenant_id) ≡ true
  pub payload : validate_payload e.payload (some e.tenant_id) ≡ ok tt
  pub lease : has_lease_metadata e ≡ true
  pub paused :
      (not (same_status e.status OutboxStatus.paused) || has_circuit_id e.circuit_id) ≡ true
  pub circuit : (same_status e.status OutboxStatus.paused || absent e.circuit_id) ≡ true

pub validate_stored_entry-IsStored :
    (e : Entry) {u : Unit {0}} → validate_stored_entry e ≡ ok u → IsStored e
unfolding validate_stored_entry
validate_stored_entry-IsStored e h =
    let (i, h1) = require-eq-ok (not (is_blank e.id)) OutboxError.id_required _ h in
    let (t, h2) = require-eq-ok (not (is_blank e.tenant_id)) OutboxError.tenant_id_required _ h1 in
    let (u, p, h3) = >>=-eq-ok (validate_payload e.payload (some e.tenant_id)) _ h2 in
    let (l, h4) = require-eq-ok (has_lease_metadata e) OutboxError.invalid_lease_metadata _ h3 in
    let (c, h5) =
      require-eq-ok (not (same_status e.status OutboxStatus.paused) || has_circuit_id e.circuit_id)
        OutboxError.invalid_paused_circuit _ h4 in
    record {
      id = i;
      tenant = t;
      payload = p;
      lease = l;
      paused = c;
      circuit =
          require-eq-ok_last (same_status e.status OutboxStatus.paused || absent e.circuit_id)
            OutboxError.invalid_circuit h5;
    }

pub IsStored-validate_stored_entry : (e : Entry) → IsStored e → validate_stored_entry e ≡ ok tt
unfolding validate_stored_entry
IsStored-validate_stored_entry e s =
    rw (s.id, s.tenant, s.payload, s.lease, s.paused, s.circuit) refl

pub validate_entries-All :
    (es : List Entry) {u : Unit {0}} → validate_entries es ≡ ok u → All IsStored es
unfolding validate_entries
validate_entries-All [] h = tt
validate_entries-All (e ∷ es) h =
    let (u, first, rest) = >>=-eq-ok (validate_stored_entry e) _ h in
    (validate_stored_entry-IsStored e first, validate_entries-All es rest)

pub All-validate_entries : (es : List Entry) → All IsStored es → validate_entries es ≡ ok tt
unfolding validate_entries
All-validate_entries [] h = refl
All-validate_entries (e ∷ es) h =
    rw (IsStored-validate_stored_entry e h.0) (All-validate_entries es h.1)

module _ (id_le : String → String → Bool) where
  pub read-eq-ok :
      (file entries : List Entry)
      → read_entries id_le file ≡ ok entries
      → All IsStored file × (entries ≡ sort_entries id_le file)
  unfolding read_entries
  read-eq-ok file entries h =
      let (u, valid, rest) = >>=-eq-ok (validate_entries file) _ h in
      let same : sort_entries id_le file ≡ entries = ok-injective rest in
      (validate_entries-All file valid, rw same refl)

  pub read-IsStored :
      (file : List Entry)
      → All IsStored file
      → read_entries id_le file ≡ ok (sort_entries id_le file)
  unfolding read_entries
  read-IsStored file h = rw (All-validate_entries file h) refl

  module _ (P : Entry → Type 0) where
    All-insert : (e : Entry) (es : List Entry) → P e → All P es → All P (insert_sorted id_le e es)
    unfolding insert_sorted
    All-insert e [] here rest = (here, tt)
    All-insert e (x ∷ xs) here rest = elim (Bool-cases (compare_entries id_le e x)) [
      | inl before ↦ rw (before, All) (here, rest)
      | inr after ↦ rw (after, All) (rest.0, All-insert e xs here rest.1)
    ]

    pub All-sort : (es : List Entry) → All P es → All P (sort_entries id_le es)
    unfolding sort_entries
    All-sort [] h = tt
    All-sort (e ∷ es) h = All-insert e (sort_entries id_le es) h.0 (All-sort es h.1)

  module _ (R : Entry → Entry → Type 0) (flip : (a b : Entry) → R a b → R b a) where
    Pairwise-insert :
        (e : Entry) (es : List Entry)
        → All (R e) es
        → Pairwise R es
        → Pairwise R (insert_sorted id_le e es)
    unfolding insert_sorted
    Pairwise-insert e [] here rest = (tt, tt)
    Pairwise-insert e (x ∷ xs) here rest = elim (Bool-cases (compare_entries id_le e x)) [
      | inl before ↦ rw (before, Pairwise) (here, rest)
      | inr after ↦
          rw (after, Pairwise)
            (All-insert (R x) e xs (flip e x here.0) rest.0, Pairwise-insert e xs here.1 rest.1)
    ]

    pub Pairwise-sort : (es : List Entry) → Pairwise R es → Pairwise R (sort_entries id_le es)
    unfolding sort_entries
    Pairwise-sort [] h = tt
    Pairwise-sort (e ∷ es) h =
        Pairwise-insert e (sort_entries id_le es) (All-sort (R e) es h.0) (Pairwise-sort es h.1)

    pub Pairwise-add :
        (es : List Entry) (e : Entry) → All (R e) es → Pairwise R es → Pairwise R (es ++ e ∷ [])
    Pairwise-add [] e h k = (tt, tt)
    Pairwise-add (x ∷ xs) e h k = (
      veritio.Prelude.All-append (R x) xs (e ∷ []) k.0 (flip e x h.0, tt),
      Pairwise-add xs e h.1 k.1,
    )

  backlog-insert :
      (e : Entry) (es : List Entry)
      → backlog (insert_sorted id_le e es) ≡ undelivered_bytes e + backlog es
  unfolding insert_sorted backlog
  backlog-insert e [] = refl
  backlog-insert e (x ∷ xs) = elim (Bool-cases (compare_entries id_le e x)) [
    | inl before ↦ rw (before, backlog) refl
    | inr after ↦ rw (after, backlog) (omega (arith, backlog-insert e xs))
  ]

  pub backlog-sort : (es : List Entry) → backlog (sort_entries id_le es) ≡ backlog es
  unfolding sort_entries backlog
  backlog-sort [] = refl
  backlog-sort (e ∷ es) = rw (backlog-insert e (sort_entries id_le es), backlog-sort es) refl
