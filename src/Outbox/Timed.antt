-- ===== src/Outbox/Timed.antt =====
-- The dates of the leases of the file queue (storage/src/outbox-file.ts): while leases end by the year 9999,
-- the ISO texts that the code compares tell the same of a lease as the times do.
use veritio.Prelude.{
  ℕ, ◌+◌, ◌≤◌, ◌≡◌, refl, String, Option, some, List, [], ◌∷◌, Bool, true, false, ltb, inl, inr,
  ◌⊎◌, and-eq-true, All, All-append, Each-All, arith,
}
use veritio.Prelude.Results.{ok, >>=-eq-ok, ok-injective}
use veritio.Outbox.{
  OutboxStatus, DeliveryDisposition, Entry, Failure, same_status, iso_le, is_extended,
  last_four_digit, assert_lease, clear_lease, resolve_disposition,
}
use veritio.Outbox.File.{sort_entries, is_active, lease}
use veritio.Outbox.Settle.{
  FailOptions, settle_dispatched, settle_failed, place, resumed, claim_dispatchable,
  mark_dispatched, mark_failed, resume_paused,
}
use veritio.Outbox.Rows.{All-sort}
use veritio.Outbox.Calls.{Call, call, second-eq-ok}
use veritio.Outbox.Evidence.{Updates, claim-eq-ok, claim-Updates, settle-Updates, resume-Updates}
use veritio.Outbox.Enqueue.{transaction-keeps}
use veritio.Outbox.Leases.{is_held, is_after}

-- A row that is not leased, or is under a lease that ends at its date, by the year 9999.
abbrev pub IsTimed : Entry → Type 0
IsTimed e =
    (same_status e.status OutboxStatus.leased ≡ false)
    ⊎ ((e.lease_expires_at ≡ some e.available_at) × (e.available_at ≤ last_four_digit))

-- A claim whose leases end by the year 9999.
abbrev pub HasDate : Call → Type 0
HasDate (Call.claims o now) = now + o.lease_ms ≤ last_four_digit
HasDate _ = Unit

earlier-apart : (now at : ℕ) → at ≤ last_four_digit → ltb now at ≡ true → iso_le at now ≡ false
unfolding iso_le is_extended
earlier-apart now at within later = ground arith

-- A lease that has not run out is one for the code.
pub held-active : (now : ℕ) (e : Entry) → IsTimed e → is_held now e ≡ true → is_active now e ≡ true
unfolding is_held is_active
held-active now e (inl idle) h = cc
held-active now e (inr (ends, within)) h =
    let (leased, after) = and-eq-true (same_status e.status OutboxStatus.leased) _ h in
    let later : ltb now e.available_at ≡ true = rw (ends, is_after) at after in
    rw (leased, earlier-apart now e.available_at within later) refl

-- A step after which a row is timed if it was.
TimedStep : Entry → Entry → Type 0
TimedStep e x = IsTimed e → IsTimed x

place-idle :
    (o : FailOptions) (fresh : String) (d : DeliveryDisposition) (e : Entry)
    → same_status (clear_lease (place o fresh d e)).status OutboxStatus.leased ≡ false
unfolding clear_lease
place-idle o fresh DeliveryDisposition.retry e = refl
place-idle o fresh DeliveryDisposition.pause e = refl
place-idle o fresh DeliveryDisposition.reject e = refl

dispatched-IsTimed :
    (lease_id : Option String) (at : ℕ) (e x : Entry)
    → settle_dispatched lease_id at e ≡ ok x
    → IsTimed x
unfolding settle_dispatched clear_lease
dispatched-IsTimed lease_id at e x h =
    let (u, owned, done) = >>=-eq-ok (assert_lease e lease_id) _ h in
    rw (← ok-injective done) (inl refl)

failed-IsTimed :
    (failure : Failure) (o : FailOptions) (fresh : String) (e x : Entry)
    → settle_failed failure o fresh e ≡ ok x
    → IsTimed x
unfolding settle_failed
failed-IsTimed failure o fresh e x h =
    let (u, owned, h1) = >>=-eq-ok (assert_lease e o.lease_id) _ h in
    let (d, chosen, done) = >>=-eq-ok (resolve_disposition o.retryable o.disposition) _ h1 in
    rw (← ok-injective done) (inl (place-idle o fresh d _))

module _ (id_le : String → String → Bool) where
  Updates-IsTimed :
      (file after : List Entry)
      → All IsTimed file
      → Updates id_le TimedStep file after
      → All IsTimed after
  unfolding TimedStep
  Updates-IsTimed file after v u = elim u.moved [
    | inl same ↦ rw same v
    | inr moved ↦ rw moved (
        All-sort id_le IsTimed u.rows (
          Each-All TimedStep IsTimed IsTimed (λ e x step t. step t) (sort_entries id_le file) u.rows
            u.each (All-sort id_le IsTimed file v)))
  ]

  pub call-IsTimed :
      (max : Option ℕ) (file : List Entry) (c : Call) (after : List Entry)
      → HasDate c
      → All IsTimed file
      → call id_le max file c ≡ ok after
      → All IsTimed after
  unfolding call mark_dispatched mark_failed lease resumed TimedStep
  call-IsTimed max file (Call.transacts callback) after dated v h =
      transaction-keeps id_le max (All IsTimed)
        (λ staged input now e after start a. rw a.moved (
          All-sort id_le IsTimed _
            (All-append IsTimed staged (e ∷ []) start (inl (rw a.fresh.pending refl), tt))))
        (All-sort id_le IsTimed) file callback after v h
  call-IsTimed max file (Call.claims o now) after dated v h =
      let (claims, h1) = second-eq-ok (claim_dispatchable id_le file o now) after h in
      Updates-IsTimed file after v (
        claim-Updates id_le TimedStep file o now claims after (λ e t. t)
          (λ blocked e due t. inr (refl, dated)) (claim-eq-ok id_le file o now claims after h1))
  call-IsTimed max file (Call.dispatches id lease_id at) after dated v h =
      let (e, h1) = second-eq-ok (mark_dispatched id_le file id lease_id at) after h in
      Updates-IsTimed file after v (
        settle-Updates id_le TimedStep (settle_dispatched lease_id at) file id e after (λ e t. t)
          (λ e x k t. dispatched-IsTimed lease_id at e x k) h1)
  call-IsTimed max file (Call.fails id failure o fresh) after dated v h =
      let (e, h1) = second-eq-ok (mark_failed id_le file id failure o fresh) after h in
      Updates-IsTimed file after v (
        settle-Updates id_le TimedStep (settle_failed failure o fresh) file id e after (λ e t. t)
          (λ e x k t. failed-IsTimed failure o fresh e x k) h1)
  call-IsTimed max file (Call.resumes o now) after dated v h =
      let (n, h1) = second-eq-ok (resume_paused id_le file o now) after h in
      Updates-IsTimed file after v
        (resume-Updates id_le TimedStep file o now n after (λ e t. t) (λ e held t. inl refl) h1)
