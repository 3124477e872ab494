-- ===== src/Store/Settlement.antt =====
-- What `prepareDisposition` and `confirmDisposition` of sdks/typescript/src/index.ts have done when
-- they return.
use veritio.Prelude.{
  ℕ, ◌≡◌, ◌⊎◌, refl, sym, String, Option, none, some, true, not, ◌&&◌, ltb, ◌==◌, ==→≡, ◌===◌,
  ===_iff, Bool-cases, and-eq-true, inl, inr,
}
use veritio.Prelude.Text.{is_blank}
use veritio.Prelude.Dict.{get}
use veritio.Prelude.Results.{ok, require-eq-ok, >>=-eq-ok, ok-injective, ok-injective_pair}
use veritio.Retention.{Checkpoint, Disposition, SignatureStatus, RetentionResult, accepted, refused}
use veritio.Retention.Verify.{Platform, no_options, verify_retention_disposition}
use veritio.Store.{
  Store, tenant_required, invalid_fence, fence_mismatch, attempt_id_required, attempt_mismatch,
  attempt_fence_mismatch, attempt_not_pending, AttemptStatus, pending, disposed, DispositionAttempt,
  state_of, checkpoints_of, attempts_of, dispositions_of, is_retention_policy_fence,
}
use veritio.Store.Dispose.{
  is_pending, same_attempt, same_receipt, find_checkpoint, admit_attempt, bind_attempt,
  place_attempt, prepare_disposition, or_invalid, claim_attempt, confirm, confirm_first,
  settle_after, settle, confirm_on, confirm_disposition,
}
use veritio.Store.Outcomes.{chain_state-bind}

place_attempt-eq-ok :
    (existing : Option DispositionAttempt) (store : Store) (tenant hash : String)
    (attempt value : DispositionAttempt) (after : Store)
    → place_attempt existing store tenant hash attempt ≡ ok (value, after)
    → (after ≡ store) ⊎ (after ≡ bind_attempt store tenant hash attempt)
unfolding place_attempt
place_attempt-eq-ok none store tenant hash attempt value after h = inr (sym (ok-injective_pair h).1)
place_attempt-eq-ok (some existing) store tenant hash attempt value after h =
    elim (Bool-cases (same_attempt existing attempt)) [
      | inl same ↦ inl (sym (ok-injective_pair (rw (same, place_attempt) at h)).1)
      | inr other ↦
          elim (Bool-cases
            (is_pending existing.status && ltb existing.policy_fence attempt.policy_fence)) [
              | inl newer ↦ inr (sym (ok-injective_pair (rw (other, newer, place_attempt) at h)).1)
              | inr older ↦ let no = rw (other, older, place_attempt) at h in cc
            ]
    ]

-- A prepared attempt is the stored one again, or replaces none or a pending one of a lower fence.
pub prepare-eq-ok :
    (store : Store) (tenant hash : String) (attempt : DispositionAttempt) (fence : ℕ)
    (value : DispositionAttempt) (after : Store)
    → prepare_disposition store tenant hash attempt fence ≡ ok (value, after)
    → (admit_attempt store tenant hash attempt fence ≡ ok tt)
      × ((after ≡ store) ⊎ (after ≡ bind_attempt store tenant hash attempt))
unfolding prepare_disposition
prepare-eq-ok store tenant hash attempt fence value after h =
    let (u, admitted, h1) = >>=-eq-ok (admit_attempt store tenant hash attempt fence) _ h in
    (
      admitted,
      place_attempt-eq-ok (get (attempts_of store tenant) hash) store tenant hash attempt value
          after h1,
    )

-- A receipt that was accepted and stored.
pub record Confirms (platform : Platform) (store : Store) (tenant : String) (receipt : Disposition)
    (attempt_id : String) (fence : ℕ) (after : Store) : Type 0 where
  pub attempt : DispositionAttempt
  pub checkpoint : Checkpoint
  pub status : SignatureStatus
  pub same_fence : (state_of store tenant).retention_policy_fence ≡ fence
  pub known : get (attempts_of store tenant) receipt.checkpoint_hash ≡ some attempt
  pub same_id : attempt.attempt_id ≡ attempt_id
  pub bound : attempt.policy_fence ≡ fence
  pub waits : attempt.status ≡ pending
  pub anchored :
      find_checkpoint (checkpoints_of store tenant) receipt.checkpoint_hash ≡ some checkpoint
  pub first : get (dispositions_of store tenant) receipt.checkpoint_hash ≡ none
  pub verified :
      verify_retention_disposition platform receipt checkpoint no_options ≡ accepted status
  pub moved : after ≡ confirm store tenant attempt receipt

-- A receipt that repeats the stored one of a settled attempt.
pub record Replays (store : Store) (tenant : String) (receipt : Disposition) (attempt_id : String)
    (fence : ℕ) (after : Store) : Type 0 where
  pub attempt : DispositionAttempt
  pub existing : Disposition
  pub same_fence : (state_of store tenant).retention_policy_fence ≡ fence
  pub known : get (attempts_of store tenant) receipt.checkpoint_hash ≡ some attempt
  pub same_id : attempt.attempt_id ≡ attempt_id
  pub bound : attempt.policy_fence ≡ fence
  pub settled : attempt.status ≡ disposed
  pub stored : get (dispositions_of store tenant) receipt.checkpoint_hash ≡ some existing
  pub same : same_receipt existing receipt ≡ true
  pub unmoved : after ≡ store

is_pending-disposed : (s : AttemptStatus) → not (is_pending s) ≡ true → s ≡ disposed
is_pending-disposed pending h = cc
is_pending-disposed disposed h = refl

is_pending-pending : (s : AttemptStatus) → is_pending s ≡ true → s ≡ pending
is_pending-pending pending h = refl
is_pending-pending disposed h = cc

or_invalid-accepted :
    (r : RetentionResult) → or_invalid r ≡ ok tt → (s : SignatureStatus) × (r ≡ accepted s)
or_invalid-accepted (accepted s) h = (s, refl)
or_invalid-accepted (refused i reason s) h = cc

module _ (platform : Platform) where
  claim_attempt-eq-ok :
      (o : Option DispositionAttempt) (hash attempt_id : String) (fence : ℕ)
      (a : DispositionAttempt)
      → claim_attempt o hash attempt_id fence ≡ ok a
      → (o ≡ some a)
        × (a.attempt_id ≡ attempt_id)
        × (a.policy_fence ≡ fence)
        × (a.checkpoint_hash ≡ hash)
  unfolding claim_attempt
  claim_attempt-eq-ok none hash attempt_id fence a h = cc
  claim_attempt-eq-ok (some b) hash attempt_id fence a h =
      let (same_id, h1) = require-eq-ok (b.attempt_id === attempt_id) attempt_mismatch _ h in
      let (bound, h2) =
        require-eq-ok (b.policy_fence == fence && b.checkpoint_hash === hash) attempt_fence_mismatch
          _ h1 in
      let same = ok-injective h2 in
      rw (← same) (
        refl,
        (===_iff _ _).0 same_id,
        ==→≡ _ _ (and-eq-true _ _ bound).0,
        (===_iff _ _).0 (and-eq-true _ _ bound).1,
      )

  confirm_first-eq-ok :
      (store : Store) (tenant : String) (attempt : DispositionAttempt) (receipt : Disposition)
      (c : Checkpoint) (after : Store)
      → confirm_first platform store tenant attempt receipt c ≡ ok after
      → (attempt.status ≡ pending)
        × ((s : SignatureStatus) × (verify_retention_disposition platform receipt c no_options
              ≡ accepted s))
        × (after ≡ confirm store tenant attempt receipt)
  unfolding confirm_first
  confirm_first-eq-ok store tenant attempt receipt c after h =
      let (waits, h1) = require-eq-ok (is_pending attempt.status) attempt_not_pending _ h in
      let (u, checked, h2) =
        >>=-eq-ok (or_invalid (verify_retention_disposition platform receipt c no_options)) _ h1 in
      (
        is_pending-pending attempt.status waits,
        or_invalid-accepted _ checked,
        sym (ok-injective h2),
      )

  settle_after-eq-ok :
      (existing : Option Disposition) (store : Store) (tenant : String)
      (attempt : DispositionAttempt) (receipt : Disposition) (c : Checkpoint) (after : Store)
      → settle_after platform existing store tenant attempt receipt c ≡ ok after
      → ((e : Disposition) × (existing ≡ some e)
          × (attempt.status ≡ disposed)
          × (same_receipt e receipt ≡ true)
          × (after ≡ store))
        ⊎ ((existing ≡ none) × (confirm_first platform store tenant attempt receipt c ≡ ok after))
  unfolding settle_after
  settle_after-eq-ok none store tenant attempt receipt c after h = inr (refl, h)
  settle_after-eq-ok (some e) store tenant attempt receipt c after h =
      elim (Bool-cases (not (is_pending attempt.status) && same_receipt e receipt)) [
        | inl again ↦
            let (settled, same) = and-eq-true _ _ again in
            inl (
              e,
              refl,
              is_pending-disposed attempt.status settled,
              same,
              sym (ok-injective (rw (again, settle_after) at h)),
            )
        | inr other ↦ let no = rw (other, settle_after) at h in cc
      ]

  settle-eq-ok :
      (store : Store) (tenant : String) (attempt : DispositionAttempt) (receipt : Disposition)
      (checkpoint : Option Checkpoint) (after : Store)
      → settle platform store tenant attempt receipt checkpoint ≡ ok after
      → ((e : Disposition) × (get (dispositions_of store tenant) receipt.checkpoint_hash ≡ some e)
          × (attempt.status ≡ disposed)
          × (same_receipt e receipt ≡ true)
          × (after ≡ store))
        ⊎ ((c : Checkpoint) × (checkpoint ≡ some c)
            × (get (dispositions_of store tenant) receipt.checkpoint_hash ≡ none)
            × (attempt.status ≡ pending)
            × ((s : SignatureStatus) × (verify_retention_disposition platform receipt c no_options
                  ≡ accepted s))
            × (after ≡ confirm store tenant attempt receipt))
  unfolding settle
  settle-eq-ok store tenant attempt receipt none after h = cc
  settle-eq-ok store tenant attempt receipt (some c) after h =
      elim (settle_after-eq-ok _ store tenant attempt receipt c after h) [
        | inl same ↦ inl same
        | inr (first, h1) ↦
            let (waits, verified, moved) =
              confirm_first-eq-ok store tenant attempt receipt c after h1 in
            inr (c, refl, first, waits, verified, moved)
      ]

  confirm_on-eq-ok :
      (store : Store) (tenant : String) (receipt : Disposition) (attempt_id : String) (fence : ℕ)
      (after : Store)
      → confirm_on platform store tenant receipt attempt_id fence (state_of store tenant) ≡ ok after
      → Replays store tenant receipt attempt_id fence after
        ⊎ Confirms platform store tenant receipt attempt_id fence after
  unfolding confirm_on
  confirm_on-eq-ok store tenant receipt attempt_id fence after h =
      let (same_fence, h1) =
        require-eq-ok ((state_of store tenant).retention_policy_fence == fence) fence_mismatch _
          h in
      let (a, claimed, h2) =
        >>=-eq-ok
          (claim_attempt (get (attempts_of store tenant) receipt.checkpoint_hash)
            receipt.checkpoint_hash attempt_id fence)
          _ h1 in
      let (known, same_id, bound, same_hash) = claim_attempt-eq-ok _ _ attempt_id fence a claimed in
      elim (settle-eq-ok store tenant a receipt _ after h2) [
        | inl (e, stored, settled, same, unmoved) ↦ inl (record {
          attempt = a;
          existing = e;
          same_fence = ==→≡ _ _ same_fence;
          known = known;
          same_id = same_id;
          bound = bound;
          settled = settled;
          stored = stored;
          same = same;
          unmoved = unmoved;
        })
        | inr (c, anchored, first, waits, (status, verified), moved) ↦ inr (record {
          attempt = a;
          checkpoint = c;
          status = status;
          same_fence = ==→≡ _ _ same_fence;
          known = known;
          same_id = same_id;
          bound = bound;
          waits = waits;
          anchored = anchored;
          first = first;
          verified = verified;
          moved = moved;
        })
      ]

  pub confirm-eq-ok :
      (store : Store) (tenant : String) (receipt : Disposition) (attempt_id : String) (fence : ℕ)
      (after : Store)
      → confirm_disposition platform store tenant receipt attempt_id fence ≡ ok after
      → Replays store tenant receipt attempt_id fence after
        ⊎ Confirms platform store tenant receipt attempt_id fence after
  unfolding confirm_disposition
  confirm-eq-ok store tenant receipt attempt_id fence after h =
      let (filled, h1) = require-eq-ok (not (is_blank tenant)) tenant_required _ h in
      let (named, h2) = require-eq-ok (not (is_blank attempt_id)) attempt_id_required _ h1 in
      let (number, h3) = require-eq-ok (is_retention_policy_fence fence) invalid_fence _ h2 in
      let (coherent, h4) =
        chain_state-bind store tenant (confirm_on platform store tenant receipt attempt_id fence)
          h3 in
      confirm_on-eq-ok store tenant receipt attempt_id fence after h4
