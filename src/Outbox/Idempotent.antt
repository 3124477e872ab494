-- ===== src/Outbox/Idempotent.antt =====
-- The idempotency of `tx.enqueue` (storage/src/outbox-file.ts): a repeated enqueue answers the stored row.
use Prim.{absurd}
use veritio.Prelude.{
  ℕ, ◌≡◌, ◌≢◌, refl, sym, String, Option, some, List, [], ◌∷◌, ◌++◌, Bool, true, not, ◌===◌,
  ===_iff, ===_refl, All, All-map, inl, inr, Bool-cases, arith, ◌∙◌, subst,
}
use veritio.Prelude.Text.{is_blank, same_text}
use veritio.Prelude.Results.{ok, >>=-eq-ok, require-eq-ok, ok-injective}
use veritio.Outbox.{
  Entry, EnqueueInput, OutboxError, validate_payload, same_enqueue_input, create_pending_entry,
  find_entry,
}
use veritio.Outbox.File.{sort_entries, stage_entry, enqueue}
use veritio.Outbox.Rows.{Pairwise-add}
use veritio.Outbox.Enqueue.{enqueue-eq-ok}
use veritio.Outbox.Lookup.{find-sort}
use veritio.Outbox.Queue.{HasOtherId, HasOtherId-flip, IsQueue}

same_text_refl : (cs : List ℕ) → same_text cs cs ≡ true
unfolding same_text
same_text_refl [] = refl
same_text_refl (c ∷ cs) = rw (same_text_refl cs) (ground arith)

-- The row that an input makes at another time.
created-later :
    (input : EnqueueInput) (now later : ℕ) (e : Entry)
    → create_pending_entry input now ≡ ok e
    → (x : Entry) × (create_pending_entry input later ≡ ok x)
      × (x.id ≡ e.id)
      × ((row : Entry) → same_enqueue_input row e ≡ same_enqueue_input row x)
unfolding create_pending_entry same_enqueue_input
created-later input now later e h =
    let (t, h1) =
      require-eq-ok (not (is_blank input.tenant_id)) OutboxError.tenant_id_required _ h in
    let (i, h2) = require-eq-ok (not (is_blank input.id)) OutboxError.id_required _ h1 in
    let (u, p, done) = >>=-eq-ok (validate_payload input.payload (some input.tenant_id)) _ h2 in
    rw (t, i, p) (_, refl, rw (← ok-injective done) refl, λ row. rw (← ok-injective done) refl)

same_enqueue_input_refl : (e : Entry) → same_enqueue_input e e ≡ true
unfolding same_enqueue_input
same_enqueue_input_refl e = rw (===_refl e.tenant_id) (same_text_refl _)

find-added :
    (es : List Entry) (e : Entry)
    → All (λ x. x.id ≢ e.id) es
    → find_entry (es ++ e ∷ []) e.id ≡ some e
find-added [] e h = rw (===_refl e.id) refl
find-added (x ∷ xs) e h = elim (Bool-cases (x.id === e.id)) [
  | inl here ↦ absurd (h.0 ((===_iff x.id e.id).0 here))
  | inr apart ↦ rw apart (find-added xs e h.1)
]

module _ (id_le : String → String → Bool) (max_queued_bytes : Option ℕ) where
  repeat_known :
      (rows : List Entry) (input : EnqueueInput) (later : ℕ) (stored x : Entry)
      → create_pending_entry input later ≡ ok x
      → find_entry rows x.id ≡ some stored
      → same_enqueue_input stored x ≡ true
      → enqueue id_le max_queued_bytes rows input later ≡ ok (stored, rows)
  unfolding enqueue stage_entry
  repeat_known rows input later stored x again found same =
      let staged : stage_entry id_le max_queued_bytes rows x ≡ ok (stored, rows) =
        rw (found, stage_entry, same) refl in
      rw again staged

  repeat_found :
      (rows : List Entry) (input : EnqueueInput) (now later : ℕ) (stored entry : Entry)
      → create_pending_entry input now ≡ ok entry
      → find_entry rows entry.id ≡ some stored
      → same_enqueue_input stored entry ≡ true
      → enqueue id_le max_queued_bytes rows input later ≡ ok (stored, rows)
  unfolding enqueue
  repeat_found rows input now later stored entry created found same =
      let (x, again, id, alike) = created-later input now later entry created in
      let found' : find_entry rows x.id ≡ some stored =
        subst (λ i. find_entry rows i ≡ some stored) (sym id) found in
      repeat_known rows input later stored x again found' (rw (← alike stored) same)

  -- On staged rows with unique ids, an enqueue that returned answers the same row when it is repeated
  -- with the same input at any time, also over the byte ceiling, and changes nothing.
  pub enqueue_again :
      (staged : List Entry) (input : EnqueueInput) (now later : ℕ) (e : Entry) (after : List Entry)
      → IsQueue staged
      → enqueue id_le max_queued_bytes staged input now ≡ ok (e, after)
      → enqueue id_le max_queued_bytes after input later ≡ ok (e, after)
  enqueue_again staged input now later e after v h =
      elim (enqueue-eq-ok id_le max_queued_bytes staged input now e after h) [
        | inl r ↦
            rw r.unmoved (repeat_found staged input now later e r.entry r.created r.found r.same)
        | inr a ↦
            let apart =
              Pairwise-add id_le HasOtherId HasOtherId-flip staged e
                (All-map (λ x. x.id ≢ e.id) (HasOtherId e) (λ x k same. k (sym same)) staged
                  a.absent)
                v.apart in
            rw a.moved (
              repeat_found (sort_entries id_le (staged ++ e ∷ [])) input now later e e a.created
                (find-sort id_le (staged ++ e ∷ []) e.id apart ∙ find-added staged e a.absent)
                (same_enqueue_input_refl e))
      ]
