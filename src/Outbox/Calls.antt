-- ===== src/Outbox/Calls.antt =====
-- The operations of the file queue (storage/src/outbox-file.ts) as steps of its rows: claiming, settling
-- and resuming change rows in place, and a transaction adds pending rows.
use veritio.Prelude.{
  ℕ, zero, suc, ◌+◌, ◌≡◌, refl, String, Option, List, [], ◌∷◌, Bool, true, false, ◌===◌, inl, inr,
  Bool-cases, Each, Each-refl, arith, ◌⊎◌, leb, ltb,
}
use veritio.Prelude.Results.{Result, ok, throws, >>=-eq-ok, ok-injective, ok-injective_pair}
use veritio.Outbox.{Entry, ClaimOptions, Failure, OutboxError, body_bytes}
use veritio.Outbox.File.{
  Callback, transaction, holds, lease, is_candidate, ClaimStep, claim_step, claim_rows,
}
use veritio.Outbox.Settle.{
  FailOptions, ResumeOptions, update, resumed, is_paused_row, resume_rows, claim_dispatchable,
  mark_dispatched, mark_failed, resume_paused,
}

pub data Call : Type 0 where
  transacts : Callback → Call
  claims : ClaimOptions → (now : ℕ) → Call
  dispatches : (id : String) → (lease_id : Option String) → (at : ℕ) → Call
  fails : (id : String) → Failure → FailOptions → (fresh : String) → Call
  resumes : ResumeOptions → (now : ℕ) → Call

abbrev pub second :
    {A : Type 0} → Result OutboxError (A × List Entry) → Result OutboxError (List Entry)
second (ok (value, after)) = ok after
second (throws e) = throws e

-- The file after one call; a call that throws changes nothing.
module _ (id_le : String → String → Bool) (max_queued_bytes : Option ℕ) where
  unfoldable pub call : List Entry → Call → Result OutboxError (List Entry)
  call file (Call.transacts run) = transaction id_le max_queued_bytes file run
  call file (Call.claims o now) = second (claim_dispatchable id_le file o now)
  call file (Call.dispatches id lease_id at) = second (mark_dispatched id_le file id lease_id at)
  call file (Call.fails id failure o fresh) = second (mark_failed id_le file id failure o fresh)
  call file (Call.resumes o now) = second (resume_paused id_le file o now)

  abbrev pub after_call : List Entry → Result OutboxError (List Entry) → List Entry
  after_call file (ok after) = after
  after_call file (throws e) = file

  unfoldable pub run : List Entry → List Call → List Entry
  run file [] = file
  run file (c ∷ cs) = run (after_call file (call file c)) cs

pub second-eq-ok :
    {A : Type 0} (r : Result OutboxError (A × List Entry)) (after : List Entry)
    → second r ≡ ok after
    → (value : A) × (r ≡ ok (value, after))
second-eq-ok (ok (value, s)) after h = (value, rw (ok-injective h))
second-eq-ok (throws e) after h = cc

-- An update changes the row of its id by one call of `f`.
pub update-Each :
    (R : Entry → Entry → Type 0) (f : Entry → Result OutboxError Entry) (id : String)
    (es : List Entry) (e' : Entry) (es' : List Entry)
    → ((e : Entry) → R e e)
    → ((e x : Entry) → f e ≡ ok x → R e x)
    → update f id es ≡ ok (e', es')
    → Each R es es'
unfolding update
update-Each R f id [] e' es' keeps steps h = cc
update-Each R f id (e ∷ es) e' es' keeps steps h = elim (Bool-cases (e.id === id)) [
  | inl here ↦
      let (x, changed, done) = >>=-eq-ok (f e) _ (rw (here, update) at h) in
      let same : x ∷ es ≡ es' = (ok-injective_pair done).1 in
      rw (← same) (steps e x changed, Each-refl R keeps es)
  | inr apart ↦
      let (rest, changed, done) = >>=-eq-ok (update f id es) _ (rw (apart, update) at h) in
      let same : e ∷ rest.1 ≡ es' = (ok-injective_pair done).1 in
      rw (← same) (keeps e, update-Each R f id es rest.0 rest.1 keeps steps changed)
]

pub resume_rows-Each :
    (R : Entry → Entry → Type 0) (tenant : String) (now limit : ℕ) (es : List Entry)
    → ((e : Entry) → R e e)
    → ((e : Entry) → is_paused_row tenant e ≡ true → R e (resumed now e))
    → Each R es (resume_rows tenant now limit es).0
unfolding resume_rows
resume_rows-Each R tenant now limit [] keeps steps = tt
resume_rows-Each R tenant now zero (e ∷ es) keeps steps = (keeps e, Each-refl R keeps es)
resume_rows-Each R tenant now (suc limit) (e ∷ es) keeps steps =
    elim (Bool-cases (is_paused_row tenant e)) [
      | inl here ↦
          rw (here, Each) (steps e here, resume_rows-Each R tenant now limit es keeps steps)
      | inr apart ↦
          rw (apart, Each) (keeps e, resume_rows-Each R tenant now (suc limit) es keeps steps)
    ]

module _ (o : ClaimOptions) (now : ℕ) (blocked : String → Bool) where
  -- What the loop has checked of a row that it claims.
  pub record IsTaken (claimed : List String) (count bytes : ℕ) (e : Entry) : Type 0 where
    pub candidate : is_candidate o now blocked e ≡ true
    pub within : leb o.limit count ≡ false
    pub fresh : holds claimed e.tenant_id ≡ false
    pub fits : ltb o.max_payload_bytes (bytes + body_bytes e.payload) ≡ false

  step-IsTaken :
      (claimed : List String) (count bytes : ℕ) (e : Entry)
      → claim_step o now blocked claimed count bytes e ≡ ClaimStep.takes
      → IsTaken claimed count bytes e
  unfolding claim_step
  step-IsTaken claimed count bytes e h = record {
    candidate = ground arith;
    within = ground arith;
    fresh = ground arith;
    fits = ground arith;
  }

  pub step-cases :
      (claimed : List String) (count bytes : ℕ) (e : Entry)
      → (claim_step o now blocked claimed count bytes e ≡ ClaimStep.skips)
        ⊎ (claim_step o now blocked claimed count bytes e ≡ ClaimStep.stops)
        ⊎ ((claim_step o now blocked claimed count bytes e ≡ ClaimStep.takes)
            × IsTaken claimed count bytes e)
  step-cases claimed count bytes e = go (claim_step o now blocked claimed count bytes e) refl
    where
      go :
          (s : ClaimStep)
          → claim_step o now blocked claimed count bytes e ≡ s
          → (claim_step o now blocked claimed count bytes e ≡ ClaimStep.skips)
            ⊎ (claim_step o now blocked claimed count bytes e ≡ ClaimStep.stops)
            ⊎ ((claim_step o now blocked claimed count bytes e ≡ ClaimStep.takes)
                × IsTaken claimed count bytes e)
      go ClaimStep.skips h = inl h
      go ClaimStep.stops h = inr (inl h)
      go ClaimStep.takes h = inr (inr (h, step-IsTaken claimed count bytes e h))

  pub claim_rows-Each :
      (R : Entry → Entry → Type 0) (claimed : List String) (count bytes : ℕ) (es : List Entry)
      → ((e : Entry) → R e e)
      → ((e : Entry) → is_candidate o now blocked e ≡ true → R e (lease o now e))
      → Each R es (claim_rows o now blocked claimed count bytes es).0
  unfolding claim_rows
  claim_rows-Each R claimed count bytes [] keeps steps = tt
  claim_rows-Each R claimed count bytes (e ∷ es) keeps steps =
      elim (step-cases claimed count bytes e) [
        | inl skipped ↦
            rw (skipped, Each) (keeps e, claim_rows-Each R claimed count bytes es keeps steps)
        | inr (inl stopped) ↦ rw (stopped, Each) (keeps e, Each-refl R keeps es)
        | inr (inr taken) ↦
            rw (taken.0, Each)
              (
                steps e taken.1.candidate,
                claim_rows-Each R (e.tenant_id ∷ claimed) (suc count) (bytes + body_bytes e.payload)
                    es keeps steps,
              )
      ]
