-- ===== src/Outbox/Lookup.antt =====
-- Looking up the rows of the file queue (storage/src/outbox-file.ts) by their ids.
use veritio.Prelude.{
  ◌≡◌, refl, String, some, List, [], ◌∷◌, Bool, ◌===◌, ===_iff, if◌then◌else◌, find, inl, inr,
  Bool-cases, All, Pairwise, arith,
}
use veritio.Outbox.{Entry, find_entry}
use veritio.Outbox.File.{sort_entries, insert_sorted, compare_entries}
use veritio.Outbox.Rows.{All-sort}
use veritio.Outbox.Queue.{HasOtherId}

-- The row of an id, whatever the order of the rows, where ids are unique.
module _ (id_le : String → String → Bool) where
  find-insert :
      (e : Entry) (es : List Entry) (id : String)
      → All (HasOtherId e) es
      → find_entry (insert_sorted id_le e es) id
        ≡ (if e.id === id then some e else find_entry es id)
  unfolding insert_sorted
  find-insert e [] id apart = refl
  find-insert e (x ∷ xs) id apart = elim (Bool-cases (compare_entries id_le e x)) [
    | inl before ↦ rw (before, find) refl
    | inr after ↦
        let other = apart.0 in
        rw (after, find)
          (ground (arith, find-insert e xs id apart.1, ===_iff x.id id, ===_iff e.id id))
  ]

  pub find-sort :
      (es : List Entry) (id : String)
      → Pairwise HasOtherId es
      → find_entry (sort_entries id_le es) id ≡ find_entry es id
  unfolding sort_entries
  find-sort [] id apart = refl
  find-sort (e ∷ es) id apart =
      rw
        (
          find-insert e (sort_entries id_le es) id (All-sort id_le (HasOtherId e) es apart.0),
          find-sort es id apart.1,
        )
        refl
