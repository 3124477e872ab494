-- ===== src/Store/Crop.antt =====
-- Cutting a prefix off a chain of records, and the list laws that `compactRange` of
-- sdks/typescript/src/index.ts rests on.
use mathlib.Core.List.{map-append}
use veritio.Prelude.{
  ℕ, ◌+◌, ◌≤◌, ◌≡◌, refl, sym, ap, ◌∙◌, String, Option, some, List, [], ◌∷◌, ◌++◌, Bool, true,
  false, not, ◌&&◌, ◌==◌, ◌===◌, same_or_null, keep, length, arith, Bool-cases, inl, inr,
}
use veritio.Prelude.Text.{Text}
use veritio.Prelude.Results.{ok, ok-injective}
use veritio.Protocol.{AuditRecord, hash_audit_record}
use veritio.Chain.{Envelope, Tip, tip_after, audit_envelope}
use veritio.Chain.Linked.{Linked, end_of, end_of-append}
use veritio.Retention.{Checkpoint}
use veritio.Retention.Verify.{Platform}
use veritio.Store.{AuditChainState}
use veritio.Store.Compact.{in_range, insert_by_sequence, sort_by_sequence, check_covered}
use veritio.Store.Tenant.{IsAnchored, base_of, envelopes}

module _ {A : Type 0} (p q : A → Bool) where
  pub keep-and : (xs : List A) → keep (λ x. p x && q x) xs ≡ keep q (keep p xs)
  keep-and [] = refl
  keep-and (x ∷ xs) = ground (arith, keep-and xs)

  pub keep-drop :
      (xs : List A) → keep p (keep (λ x. not (p x && q x)) xs) ≡ keep (λ x. not (q x)) (keep p xs)
  keep-drop [] = refl
  keep-drop (x ∷ xs) = ground (arith, keep-drop xs)

  pub keep-apart :
      (r : A → Bool)
      → ((x : A) → r x ≡ true → p x ≡ false)
      → (xs : List A) → keep r (keep (λ x. not (p x && q x)) xs) ≡ keep r xs
  keep-apart r h [] = refl
  keep-apart r h (x ∷ xs) = ground (arith, h x, keep-apart r h xs)

pub Linked-prefix :
    (tip : Tip) (xs ys : List Envelope)
    → Linked tip (xs ++ ys)
    → Linked tip xs × Linked (end_of tip xs) ys
Linked-prefix tip [] ys h = (tt, h)
Linked-prefix tip (x ∷ xs) ys h =
    let (front, back) = Linked-prefix (tip_after x) xs ys h.1 in ((h.0, front), back)

module _ (sha256 : Text → String) where
  -- Records past the range stay.
  beyond :
      (c : Checkpoint) (tip : Tip) (rs : List AuditRecord)
      → Linked tip (envelopes sha256 rs)
      → c.through_sequence ≤ tip.sequence
      → (keep (in_range c) rs ≡ []) × (keep (λ r. not (in_range c r)) rs ≡ rs)
  unfolding in_range
  beyond c tip [] h past = (refl, refl)
  beyond c tip (r ∷ rs) h past =
      ground (arith, beyond c (tip_after (audit_envelope sha256 r)) rs h.1, h.0.sequence)

  outside_past :
      (c : Checkpoint) (r : AuditRecord)
      → c.from_sequence ≤ r.sequence
      → in_range c r ≡ false
      → c.through_sequence ≤ r.sequence
  unfolding in_range
  outside_past c r start h = ground arith

  -- The covered records are a prefix of the chain.
  pub split_range :
      (c : Checkpoint) (tip : Tip) (rs : List AuditRecord)
      → Linked tip (envelopes sha256 rs)
      → c.from_sequence ≤ tip.sequence + 1
      → keep (in_range c) rs ++ keep (λ r. not (in_range c r)) rs ≡ rs
  split_range c tip [] h start = refl
  split_range c tip (r ∷ rs) h start = elim (Bool-cases (in_range c r)) [
    | inl inside ↦ rw inside (
        ap (◌∷◌ r) (
          split_range c (tip_after (audit_envelope sha256 r)) rs h.1 (omega (arith, h.0.sequence))))
    | inr outside ↦
        let (none_in, all_out) =
          beyond c (tip_after (audit_envelope sha256 r)) rs h.1
            (outside_past c r (omega (arith, h.0.sequence)) outside) in
        rw (outside, none_in) (ap (◌∷◌ r) all_out)
  ]

  pub split_envelopes :
      (c : Checkpoint) (tip : Tip) (rs : List AuditRecord)
      → Linked tip (envelopes sha256 rs)
      → c.from_sequence ≤ tip.sequence + 1
      → envelopes sha256 rs
        ≡ envelopes sha256 (keep (in_range c) rs)
          ++ envelopes sha256 (keep (λ r. not (in_range c r)) rs)
  split_envelopes c tip rs h start =
      ap (envelopes sha256) (sym (split_range c tip rs h start))
      ∙ map-append (audit_envelope sha256) (keep (in_range c) rs)
          (keep (λ r. not (in_range c r)) rs)

  -- Both parts are chains, the second from the end of the first.
  pub split-Linked :
      (c : Checkpoint) (tip : Tip) (rs : List AuditRecord)
      → Linked tip (envelopes sha256 rs)
      → c.from_sequence ≤ tip.sequence + 1
      → Linked tip (envelopes sha256 (keep (in_range c) rs))
        × Linked
            (end_of tip (envelopes sha256 (keep (in_range c) rs)))
            (envelopes sha256 (keep (λ r. not (in_range c r)) rs))
  split-Linked c tip rs h start =
      Linked-prefix tip (envelopes sha256 (keep (in_range c) rs))
        (envelopes sha256 (keep (λ r. not (in_range c r)) rs))
        (rw (split_envelopes c tip rs h start) at h)

  insert-head :
      (tip : Tip) (r : AuditRecord) (rs : List AuditRecord)
      → Linked tip (envelopes sha256 rs)
      → r.sequence ≤ tip.sequence + 1
      → insert_by_sequence r rs ≡ r ∷ rs
  unfolding insert_by_sequence
  insert-head tip r [] h le = refl
  insert-head tip r (s ∷ ss) h le = ground (arith, h.0.sequence)

  pub sort-Linked :
      (tip : Tip) (rs : List AuditRecord)
      → Linked tip (envelopes sha256 rs)
      → sort_by_sequence rs ≡ rs
  unfolding sort_by_sequence
  sort-Linked tip [] h = refl
  sort-Linked tip (r ∷ rs) h =
      rw (sort-Linked (tip_after (audit_envelope sha256 r)) rs h.1)
        (insert-head (tip_after (audit_envelope sha256 r)) r rs h.1 (omega arith))

  pub end_of-sequence :
      (tip : Tip) (rs : List AuditRecord)
      → Linked tip (envelopes sha256 rs)
      → (end_of tip (envelopes sha256 rs)).sequence ≡ tip.sequence + length rs
  end_of-sequence tip [] h = omega arith
  end_of-sequence tip (r ∷ rs) h =
      omega (arith, end_of-sequence (tip_after (audit_envelope sha256 r)) rs h.1, h.0.sequence)

module _ (platform : Platform) where
  -- The integrity loop returns the hash that the chain ends in.
  pub check_covered-end :
      (sequence : ℕ) (tip : Tip) (rs : List AuditRecord) {hash : Option String}
      → check_covered platform sequence tip.previous_hash rs ≡ ok hash
      → (end_of tip (envelopes platform.sha256 rs)).previous_hash ≡ hash
  unfolding check_covered
  check_covered-end sequence tip [] h = ok-injective h
  check_covered-end sequence tip (r ∷ rs) {hash} h =
      elim (Bool-cases (
        r.sequence == sequence
        && same_or_null r.previous_hash tip.previous_hash
        && hash_audit_record platform.sha256 r === r.hash)) [
          | inl intact ↦
              let rest : check_covered platform (sequence + 1) (some r.hash) rs ≡ ok hash =
                rw (intact, check_covered) at h in
              check_covered-end (sequence + 1) (tip_after (audit_envelope platform.sha256 r)) rs
                rest
          | inr broken ↦ let stop = rw (broken, check_covered) at h in cc
        ]

module _ (sha256 : Text → String) where
  -- Cutting the covered prefix off leaves a chain that begins at the checkpoint.
  pub crop-IsAnchored :
      {rs : List AuditRecord} {state : AuditChainState} {last : Option Checkpoint} (c : Checkpoint)
      → IsAnchored sha256 rs state last
      → c.from_sequence ≡ state.minimum_retained_sequence
      → length (keep (in_range c) rs) + c.from_sequence ≡ c.through_sequence + 1
      → (end_of (base_of last) (envelopes sha256 (keep (in_range c) rs))).previous_hash
        ≡ some c.through_hash
      → IsAnchored sha256
          (keep (λ r. not (in_range c r)) rs)
          (record state {
            minimum_retained_sequence = c.through_sequence + 1;
            latest_checkpoint_hash = some c.hash;
          })
          (some c)
  crop-IsAnchored {rs} {state} {last} c a start count hash = record {
    linked = rw (← reached) parts.1;
    tip = rw (← reached) (sym joined ∙ a.tip);
    minimum = refl;
    latest = refl;
  }
    where
      begins : c.from_sequence ≤ (base_of last).sequence + 1
      begins = omega (arith, start, a.minimum)

      inside : List Envelope
      inside = envelopes sha256 (keep (in_range c) rs)

      outside : List Envelope
      outside = envelopes sha256 (keep (λ r. not (in_range c r)) rs)

      parts : Linked (base_of last) inside × Linked (end_of (base_of last) inside) outside
      parts = split-Linked sha256 c (base_of last) rs a.linked begins

      reached : end_of (base_of last) inside ≡ base_of (some c)
      reached = ground (
        arith,
        hash,
        end_of-sequence sha256 (base_of last) (keep (in_range c) rs) parts.0,
        start,
        count,
        a.minimum,
      )

      joined :
          end_of (base_of last) (envelopes sha256 rs)
          ≡ end_of (end_of (base_of last) inside) outside
      joined =
          rw (split_envelopes sha256 c (base_of last) rs a.linked begins)
            (end_of-append (base_of last) inside outside)
