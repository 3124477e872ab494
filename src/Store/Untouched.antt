-- ===== src/Store/Untouched.antt =====
-- The idempotency entries that a call on a `MemoryAuditStore` (sdks/typescript/src/index.ts) can touch:
-- those under the key of a record that the call inserts or covers.
use veritio.Prelude.{
  ◌≡◌, refl, String, List, [], ◌∷◌, Bool, true, false, ◌&&◌, ◌===◌, ===_iff, leb, keep, Bool-cases,
  Option-cases, and-eq-true, inl, inr, Any, Any-map, ◌⊎◌,
}
use veritio.Prelude.Dict.{Dict, get, set, get-set}
use veritio.Protocol.{AuditRecord}
use veritio.Retention.{Checkpoint}
use veritio.Store.{IdempotencyEntry, belongs_to}
use veritio.Store.Compact.{
  in_range, insert_by_sequence, sort_by_sequence, covered, entomb, dispose_key, dispose_keys,
}

abbrev pub HasKey : String → AuditRecord → Type 0
HasKey key r = r.idempotency_key_hash ≡ key

module _ (P : AuditRecord → Type 0) where
  insert-Any :
      (r : AuditRecord) (rs : List AuditRecord) → Any P (insert_by_sequence r rs) → Any P (r ∷ rs)
  unfolding insert_by_sequence
  insert-Any r [] h = h
  insert-Any r (s ∷ ss) h = elim (Bool-cases (leb r.sequence s.sequence)) [
    | inl first ↦ rw first at h
    | inr later ↦ elim (rw later at h) [
      | inl here ↦ inr (inl here)
      | inr below ↦ elim (insert-Any r ss below) [ inl mine ↦ inl mine | inr rest ↦ inr (inr rest) ]
    ]
  ]

  sort-Any : (rs : List AuditRecord) → Any P (sort_by_sequence rs) → Any P rs
  unfolding sort_by_sequence
  sort-Any [] h = h
  sort-Any (r ∷ rs) h = elim (insert-Any r (sort_by_sequence rs) h) [
    | inl here ↦ inl here
    | inr below ↦ inr (sort-Any rs below)
  ]

  keep-Any :
      (test : AuditRecord → Bool) (rs : List AuditRecord)
      → Any P (keep test rs)
      → Any (λ r. P r × (test r ≡ true)) rs
  keep-Any test [] h = absurd h
  keep-Any test (r ∷ rs) h = elim (Bool-cases (test r)) [
    | inl kept ↦ elim (rw (kept, keep, Any) at h) [
      | inl here ↦ inl (here, kept)
      | inr below ↦ inr (keep-Any test rs below)
    ]
    | inr dropped ↦ inr (keep-Any test rs (rw (dropped, keep) at h))
  ]

dispose_key-apart :
    (entries : Dict IdempotencyEntry) (hash key : String)
    → (hash === key) ≡ false
    → get (dispose_key entries hash) key ≡ get entries key
unfolding dispose_key
dispose_key-apart entries hash key apart = elim (Option-cases (get entries hash)) [
  | inl missing ↦ rw (missing, dispose_key) refl
  | inr (e, found) ↦ rw (found, dispose_key, get-set entries hash key (entomb e), apart) refl
]

dispose_keys-apart :
    (entries : Dict IdempotencyEntry) (rs : List AuditRecord) (key : String)
    → (get (dispose_keys entries rs) key ≡ get entries key) ⊎ Any (HasKey key) rs
unfolding dispose_keys
dispose_keys-apart entries [] key = inl refl
dispose_keys-apart entries (r ∷ rs) key = elim (Bool-cases (r.idempotency_key_hash === key)) [
  | inl same ↦ inr (inl ((===_iff _ _).0 same))
  | inr apart ↦ elim (dispose_keys-apart (dispose_key entries r.idempotency_key_hash) rs key) [
    | inl kept ↦ inl (rw (kept) (dispose_key-apart entries r.idempotency_key_hash key apart))
    | inr below ↦ inr (inr below)
  ]
]

-- A compaction touches the entries of covered records of its tenant.
pub covered-apart :
    (entries : Dict IdempotencyEntry) (tenant : String) (c : Checkpoint)
    (records : List AuditRecord) (key : String)
    → (get (dispose_keys entries (covered tenant c records)) key ≡ get entries key)
      ⊎ Any (λ r. HasKey key r × (belongs_to tenant r ≡ true)) records
unfolding covered
covered-apart entries tenant c records key =
    let mine : AuditRecord → Bool = λ r. belongs_to tenant r && in_range c r in
    elim (dispose_keys-apart entries (covered tenant c records) key) [
      | inl kept ↦ inl kept
      | inr some_covered ↦ inr (
          Any-map (λ r. HasKey key r × (mine r ≡ true)) _ (λ r h. (h.0, (and-eq-true _ _ h.1).0))
            records
            (keep-Any (HasKey key) mine records
              (sort-Any (HasKey key) (keep mine records) some_covered)))
    ]

-- An append touches the entry of its record.
pub set-apart :
    (entries : Dict IdempotencyEntry) (r : AuditRecord) (entry : IdempotencyEntry) (key : String)
    → (get (set entries r.idempotency_key_hash entry) key ≡ get entries key) ⊎ HasKey key r
set-apart entries r entry key = elim (Bool-cases (r.idempotency_key_hash === key)) [
  | inl same ↦ inr ((===_iff _ _).0 same)
  | inr apart ↦ inl (rw (get-set entries r.idempotency_key_hash key entry, apart) refl)
]
