-- ===== src/Outbox/Update.antt =====
-- The row that a settlement of the file queue (storage/src/outbox-file.ts) changes.
use veritio.Prelude.{
  ◌≡◌, refl, ap, String, some, List, [], ◌∷◌, ◌===◌, ===_iff, inl, inr, Bool-cases, some-injective,
  ◌∙◌,
}
use veritio.Prelude.Results.{Result, ok, throws, >>=-eq-ok, ok-injective_pair}
use veritio.Outbox.{Entry, OutboxError, find_entry}
use veritio.Outbox.Settle.{update}

pub update-eq-ok :
    (f : Entry → Result OutboxError Entry) (id : String) (es : List Entry) (x : Entry)
    (rows : List Entry)
    → ((e x : Entry) → f e ≡ ok x → x.id ≡ e.id)
    → update f id es ≡ ok (x, rows)
    → (e : Entry) × (find_entry es id ≡ some e) × (f e ≡ ok x) × (find_entry rows id ≡ some x)
unfolding update
update-eq-ok f id [] x rows names h = cc
update-eq-ok f id (e ∷ es) x rows names h = elim (Bool-cases (e.id === id)) [
  | inl here ↦
      let (y, changed, done) = >>=-eq-ok (f e) _ (rw (here, update) at h) in
      let (one, two) = ok-injective_pair done in
      let one' : y ≡ x = one in
      let two' : y ∷ es ≡ rows = two in
      (
        e,
        rw here refl,
        rw changed (ap ok one'),
        rw (← two', (===_iff y.id id).1 (names e y changed ∙ (===_iff e.id id).0 here))
            (ap some one'),
      )
  | inr apart ↦
      let (rest, changed, done) = >>=-eq-ok (update f id es) _ (rw (apart, update) at h) in
      let (one, two) = ok-injective_pair done in
      let one' : rest.0 ≡ x = one in
      let two' : e ∷ rest.1 ≡ rows = two in
      let (r, found, moved, now) = update-eq-ok f id es rest.0 rest.1 names changed in
      (r, rw apart found, rw moved (ap ok one'), rw (← two', apart, now) (ap some one'))
]

pub update-throws :
    (f : Entry → Result OutboxError Entry) (id : String) (es : List Entry) (e : Entry)
    (error : OutboxError)
    → find_entry es id ≡ some e
    → f e ≡ throws error
    → update f id es ≡ throws error
unfolding update
update-throws f id [] e error found fails = cc
update-throws f id (x ∷ xs) e error found fails = elim (Bool-cases (x.id === id)) [
  | inl here ↦
      let same : x ≡ e = some-injective (rw here at found) in rw (here, update, same, fails) refl
  | inr apart ↦ rw (apart, update, update-throws f id xs e error (rw apart at found) fails) refl
]
