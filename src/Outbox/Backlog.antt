-- ===== src/Outbox/Backlog.antt =====
-- The byte ceiling of the file queue (storage/src/outbox-file.ts): the undelivered rows never exceed it.
use veritio.Prelude.{
  ℕ, ◌+◌, ◌≤◌, ◌≡◌, refl, String, Option, some, List, [], ◌∷◌, ◌++◌, Bool, true, false, not, ◌&&◌,
  ◌||◌, ◌===◌, inl, inr, and-eq-true, Each, All, arith, leb→le,
}
use Prim.{absurd}
use veritio.Prelude.Results.{ok, Result-cases, >>=-eq-ok, ok-injective}
use veritio.Outbox.{
  OutboxStatus, Entry, ClaimOptions, Failure, DeliveryDisposition, same_status, assert_lease,
  clear_lease, resolve_disposition, body_bytes,
}
use veritio.Outbox.File.{sort_entries, is_candidate, is_due, lease, undelivered_bytes, backlog}
use veritio.Outbox.Settle.{
  FailOptions, settle_dispatched, settle_failed, resumed, is_paused_row, place, claim_dispatchable,
  mark_dispatched, mark_failed, resume_paused,
}
use veritio.Outbox.Rows.{backlog-sort}
use veritio.Outbox.Calls.{Call, call, run, second-eq-ok}
use veritio.Outbox.Evidence.{Updates, claim-eq-ok, claim-Updates, settle-Updates, resume-Updates}
use veritio.Outbox.Enqueue.{transaction-keeps}
use veritio.Outbox.Settled.{owned-eq-ok}

-- A change after which the row counts for no more.
abbrev pub Shrinks : Entry → Entry → Type 0
Shrinks e e' = undelivered_bytes e' ≤ undelivered_bytes e

Each-backlog : (es xs : List Entry) → Each Shrinks es xs → backlog xs ≤ backlog es
unfolding backlog
Each-backlog [] [] h = omega arith
Each-backlog [] (x ∷ xs) h = absurd h
Each-backlog (e ∷ es) [] h = absurd h
Each-backlog (e ∷ es) (x ∷ xs) h = omega (arith, h.0, Each-backlog es xs h.1)

undelivered-eq :
    (e : Entry)
    → same_status e.status OutboxStatus.dispatched ≡ false
    → undelivered_bytes e ≡ body_bytes e.payload
undelivered-eq e h = rw h refl

-- A row with one of these statuses has not been delivered.
leased-undelivered :
    (s : OutboxStatus)
    → same_status s OutboxStatus.leased ≡ true
    → same_status s OutboxStatus.dispatched ≡ false
leased-undelivered OutboxStatus.pending h = refl
leased-undelivered OutboxStatus.leased h = refl
leased-undelivered OutboxStatus.paused h = refl
leased-undelivered OutboxStatus.dispatched h = cc
leased-undelivered OutboxStatus.dead h = refl

paused-undelivered :
    (s : OutboxStatus)
    → same_status s OutboxStatus.paused ≡ true
    → same_status s OutboxStatus.dispatched ≡ false
paused-undelivered OutboxStatus.pending h = refl
paused-undelivered OutboxStatus.leased h = refl
paused-undelivered OutboxStatus.paused h = refl
paused-undelivered OutboxStatus.dispatched h = cc
paused-undelivered OutboxStatus.dead h = refl

due-undelivered :
    (now : ℕ) (e : Entry)
    → is_due now e ≡ true
    → same_status e.status OutboxStatus.dispatched ≡ false
due-undelivered now e h =
    go e.status
      (and-eq-true
        (same_status e.status OutboxStatus.pending || same_status e.status OutboxStatus.leased) _
        h).0
  where
    go :
        (s : OutboxStatus)
        → (same_status s OutboxStatus.pending || same_status s OutboxStatus.leased) ≡ true
        → same_status s OutboxStatus.dispatched ≡ false
    go OutboxStatus.pending h = refl
    go OutboxStatus.leased h = refl
    go OutboxStatus.paused h = refl
    go OutboxStatus.dispatched h = cc
    go OutboxStatus.dead h = refl

lease-Shrinks :
    (o : ClaimOptions) (now : ℕ) (blocked : String → Bool) (e : Entry)
    → is_candidate o now blocked e ≡ true
    → Shrinks e (lease o now e)
unfolding is_candidate lease
lease-Shrinks o now blocked e h =
    let (ready, chosen) = and-eq-true (not (blocked e.tenant_id) && is_due now e) _ h in
    let (free, due) = and-eq-true (not (blocked e.tenant_id)) (is_due now e) ready in
    rw (due-undelivered now e due) (omega arith)

dispatched-Shrinks :
    (lease_id : Option String) (at : ℕ) (e x : Entry)
    → settle_dispatched lease_id at e ≡ ok x
    → Shrinks e x
unfolding settle_dispatched clear_lease
dispatched-Shrinks lease_id at e x h =
    let (u, owned, done) = >>=-eq-ok (assert_lease e lease_id) _ h in
    rw (← ok-injective done) (omega arith)

place-Shrinks :
    (o : FailOptions) (fresh : String) (d : DeliveryDisposition) (e : Entry)
    → same_status e.status OutboxStatus.dispatched ≡ false
    → Shrinks e (clear_lease (place o fresh d e))
unfolding clear_lease
place-Shrinks o fresh DeliveryDisposition.retry e h = rw h (omega arith)
place-Shrinks o fresh DeliveryDisposition.pause e h = rw h (omega arith)
place-Shrinks o fresh DeliveryDisposition.reject e h = rw h (omega arith)

failed-Shrinks :
    (failure : Failure) (o : FailOptions) (fresh l : String) (e x : Entry)
    → o.lease_id ≡ some l
    → settle_failed failure o fresh e ≡ ok x
    → Shrinks e x
unfolding settle_failed
failed-Shrinks failure o fresh l e x own h =
    let (u, owned, h1) = >>=-eq-ok (assert_lease e o.lease_id) _ h in
    let (d, chosen, done) = >>=-eq-ok (resolve_disposition o.retryable o.disposition) _ h1 in
    let leased = (owned-eq-ok e l (rw (← own) owned)).0 in
    rw (← ok-injective done) (place-Shrinks o fresh d _ (leased-undelivered e.status leased))

resumed-Shrinks :
    (tenant : String) (now : ℕ) (e : Entry)
    → is_paused_row tenant e ≡ true
    → Shrinks e (resumed now e)
unfolding resumed
resumed-Shrinks tenant now e h =
    rw (paused-undelivered e.status (and-eq-true (e.tenant_id === tenant) _ h).1) (omega arith)

-- A failure that is reported under a lease.
abbrev pub HasLease : Call → Type 0
HasLease (Call.fails id failure o fresh) = (l : String) × (o.lease_id ≡ some l)
HasLease _ = Unit

module _ (id_le : String → String → Bool) where
  Updates-backlog :
      (max : ℕ) (file after : List Entry)
      → backlog file ≤ max
      → Updates id_le Shrinks file after
      → backlog after ≤ max
  Updates-backlog max file after within u =
      let grown = Each-backlog (sort_entries id_le file) u.rows u.each in
      let same = backlog-sort id_le file in
      elim u.moved [
        | inl kept ↦ rw kept within
        | inr moved ↦ rw (moved, backlog-sort id_le u.rows) (omega arith)
      ]

  backlog-append :
      (es : List Entry) (e : Entry) → backlog (es ++ e ∷ []) ≡ backlog es + undelivered_bytes e
  unfolding backlog
  backlog-append [] e = omega arith
  backlog-append (x ∷ xs) e = omega (arith, backlog-append xs e)

  call-backlog :
      (max : ℕ) (file : List Entry) (c : Call) (after : List Entry)
      → HasLease c
      → backlog file ≤ max
      → call id_le (some max) file c ≡ ok after
      → backlog after ≤ max
  unfolding call mark_dispatched mark_failed
  call-backlog max file (Call.transacts callback) after own within h =
      transaction-keeps id_le (some max) (λ es. backlog es ≤ max)
        (λ staged input now e next start a.
          rw
            (
              a.moved,
              backlog-sort id_le (staged ++ e ∷ []),
              backlog-append staged e,
              a.fresh.pending,
            )
            (leb→le _ _ a.room))
        (λ es start. rw (backlog-sort id_le es) start) file callback after within h
  call-backlog max file (Call.claims o now) after own within h =
      let (claims, h1) = second-eq-ok (claim_dispatchable id_le file o now) after h in
      Updates-backlog max file after within (
        claim-Updates id_le Shrinks file o now claims after (λ e. omega arith)
          (λ blocked e. lease-Shrinks o now blocked e)
          (claim-eq-ok id_le file o now claims after h1))
  call-backlog max file (Call.dispatches id lease_id at) after own within h =
      let (e, h1) = second-eq-ok (mark_dispatched id_le file id lease_id at) after h in
      Updates-backlog max file after within (
        settle-Updates id_le Shrinks (settle_dispatched lease_id at) file id e after
          (λ e. omega arith) (dispatched-Shrinks lease_id at) h1)
  call-backlog max file (Call.fails id failure o fresh) after own within h =
      let (e, h1) = second-eq-ok (mark_failed id_le file id failure o fresh) after h in
      Updates-backlog max file after within (
        settle-Updates id_le Shrinks (settle_failed failure o fresh) file id e after
          (λ e. omega arith) (λ e x. failed-Shrinks failure o fresh own.0 e x own.1) h1)
  call-backlog max file (Call.resumes o now) after own within h =
      let (n, h1) = second-eq-ok (resume_paused id_le file o now) after h in
      Updates-backlog max file after within (
        resume-Updates id_le Shrinks file o now n after (λ e. omega arith)
          (λ e held. resumed-Shrinks o.tenant_id now e held) h1)

  -- Where the queue has a byte ceiling and starts with at most that backlog: after any history of calls
  -- in which every `markFailed` names a lease, the payloads of the rows that are not dispatched have at
  -- most that many bytes.
  pub backlog_bounded :
      (max : ℕ) (file : List Entry) (cs : List Call)
      → All HasLease cs
      → backlog file ≤ max
      → backlog (run id_le (some max) file cs) ≤ max
  unfolding run
  backlog_bounded max file [] own within = within
  backlog_bounded max file (c ∷ cs) own within =
      elim (Result-cases (call id_le (some max) file c)) [
        | inl (after, done) ↦
            rw (done, run)
              (backlog_bounded max after cs own.1 (call-backlog max file c after own.0 within done))
        | inr (e, refused) ↦ rw (refused, run) (backlog_bounded max file cs own.1 within)
      ]
