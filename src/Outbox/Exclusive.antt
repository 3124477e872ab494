-- ===== src/Outbox/Exclusive.antt =====
-- The leases of a tenant over a history of calls on the file queue (storage/src/outbox-file.ts): each claim
-- pass, settlement, resumption and transaction in turn.
use veritio.Prelude.{
  ℕ, ◌≤◌, ◌≡◌, ap, String, Option, List, [], ◌∷◌, Bool, inl, inr, Each-refl, Each-Pairwise,
  Pairwise, arith, All,
}
use veritio.Prelude.Results.{ok, Result-cases}
use veritio.Outbox.{Entry, ClaimOptions}
use veritio.Outbox.File.{sort_entries}
use veritio.Outbox.Settle.{
  blocked_tenants, written, settle_dispatched, settle_failed, claim_dispatchable, mark_dispatched,
  mark_failed, resume_paused,
}
use veritio.Outbox.Calls.{Call, call, run, second-eq-ok}
use veritio.Outbox.Leases.{
  AreApart, AreApart-intro, AreApart-flip, Calms, Calms-refl, calm-AreApart, dispatched-Calms,
  failed-Calms, resumed-Calms, pending-free,
}
use veritio.Outbox.Rows.{All-sort, Pairwise-sort}
use veritio.Outbox.Evidence.{Updates, Claims, claim-eq-ok, settle-Updates, resume-Updates}
use veritio.Outbox.Enqueue.{transaction-Pairwise}
use veritio.Outbox.Timed.{IsTimed, HasDate, call-IsTimed}
use veritio.Outbox.Loop.{held-blocked, claim_rows-AreApart}

-- The time of the last claim of a history.
abbrev pub clock_of : ℕ → Call → ℕ
clock_of clock (Call.claims o now) = now
clock_of clock _ = clock

abbrev InTime : ℕ → Call → Type 0
InTime clock (Call.claims o now) = clock ≤ now
InTime clock _ = Unit

-- Every claim of the history reads a clock that has not gone back since the claim before it.
abbrev pub AllInTime : ℕ → List Call → Type 0
AllInTime clock [] = Unit
AllInTime clock (c ∷ cs) = InTime clock c × AllInTime (clock_of clock c) cs

abbrev pub last_clock : ℕ → List Call → ℕ
last_clock clock [] = clock
last_clock clock (c ∷ cs) = last_clock (clock_of clock c) cs

module _ (id_le : String → String → Bool) where
  Updates-AreApart :
      (clock : ℕ) (file after : List Entry)
      → Pairwise (AreApart clock) file
      → Updates id_le (Calms clock) file after
      → Pairwise (AreApart clock) after
  Updates-AreApart clock file after v u = elim u.moved [
    | inl same ↦ rw same v
    | inr moved ↦ rw moved (
        Pairwise-sort id_le (AreApart clock) (AreApart-flip clock) u.rows (
          Each-Pairwise (Calms clock) (AreApart clock) (AreApart clock)
            (calm-AreApart clock clock (omega arith)) _ u.rows u.each
            (Pairwise-sort id_le (AreApart clock) (AreApart-flip clock) file v)))
  ]

  later-AreApart :
      (clock now : ℕ) (es : List Entry)
      → clock ≤ now
      → Pairwise (AreApart clock) es
      → Pairwise (AreApart now) es
  later-AreApart clock now es later v =
      Each-Pairwise (Calms clock) (AreApart clock) (AreApart now) (calm-AreApart clock now later) es
        es (Each-refl (Calms clock) (Calms-refl clock) es) v

  Claims-AreApart :
      (clock now : ℕ) (file : List Entry) (o : ClaimOptions) (claims after : List Entry)
      → clock ≤ now
      → All IsTimed file
      → Pairwise (AreApart clock) file
      → Claims id_le file o now claims after
      → Pairwise (AreApart now) after
  Claims-AreApart clock now file o claims after later timed v c =
      let entries = sort_entries id_le file in
      let before = later-AreApart clock now file later v in
      let passed =
        claim_rows-AreApart o now (blocked_tenants now entries) [] 0 0 entries
          (held-blocked now entries (All-sort id_le IsTimed file timed))
          (Pairwise-sort id_le (AreApart now) (AreApart-flip now) file before) in
      rw (ap (λ p. p.1) c.outcome) (go _ before passed)
    where
      go :
          (r : List Entry × List Entry)
          → Pairwise (AreApart now) file
          → Pairwise (AreApart now) r.0
          → Pairwise (AreApart now) (written id_le file r).1
      go (rows, []) before passed = before
      go (rows, x ∷ xs) before passed =
          Pairwise-sort id_le (AreApart now) (AreApart-flip now) rows passed

  call-AreApart :
      (max : Option ℕ) (clock : ℕ) (file : List Entry) (c : Call) (after : List Entry)
      → InTime clock c
      → All IsTimed file
      → Pairwise (AreApart clock) file
      → call id_le max file c ≡ ok after
      → Pairwise (AreApart (clock_of clock c)) after
  unfolding call mark_dispatched mark_failed
  call-AreApart max clock file (Call.transacts callback) after timely timed v h =
      transaction-Pairwise id_le max (AreApart clock) (AreApart-flip clock)
        (λ e x pending other.
          AreApart-intro clock e x (λ same one second. pending-free clock e pending one))
        file callback after v h
  call-AreApart max clock file (Call.claims o now) after timely timed v h =
      let (claims, h1) = second-eq-ok (claim_dispatchable id_le file o now) after h in
      Claims-AreApart clock now file o claims after timely timed v
        (claim-eq-ok id_le file o now claims after h1)
  call-AreApart max clock file (Call.dispatches id lease_id at) after timely timed v h =
      let (e, h1) = second-eq-ok (mark_dispatched id_le file id lease_id at) after h in
      Updates-AreApart clock file after v (
        settle-Updates id_le (Calms clock) (settle_dispatched lease_id at) file id e after
          (Calms-refl clock) (dispatched-Calms clock lease_id at) h1)
  call-AreApart max clock file (Call.fails id failure o fresh) after timely timed v h =
      let (e, h1) = second-eq-ok (mark_failed id_le file id failure o fresh) after h in
      Updates-AreApart clock file after v (
        settle-Updates id_le (Calms clock) (settle_failed failure o fresh) file id e after
          (Calms-refl clock) (failed-Calms clock failure o fresh) h1)
  call-AreApart max clock file (Call.resumes o now) after timely timed v h =
      let (n, h1) = second-eq-ok (resume_paused id_le file o now) after h in
      Updates-AreApart clock file after v (
        resume-Updates id_le (Calms clock) file o now n after (Calms-refl clock)
          (λ e held. resumed-Calms clock now e) h1)

  run-AreApart :
      (max : Option ℕ) (clock : ℕ) (file : List Entry) (cs : List Call)
      → AllInTime clock cs
      → All HasDate cs
      → All IsTimed file
      → Pairwise (AreApart clock) file
      → Pairwise (AreApart (last_clock clock cs)) (run id_le max file cs)
  unfolding run
  run-AreApart max clock file [] timely dated timed v = v
  run-AreApart max clock file (c ∷ cs) timely dated timed v =
      elim (Result-cases (call id_le max file c)) [
        | inl (after, done) ↦
            rw (done, run)
              (run-AreApart max (clock_of clock c) after cs timely.1 dated.1
                (call-IsTimed id_le max file c after dated.0 timed done)
                (call-AreApart max clock file c after timely.0 timed v done))
        | inr (e, refused) ↦
            rw (refused, run)
              (run-AreApart max (clock_of clock c) file cs timely.1 dated.1 timed
                (later-AreApart clock (clock_of clock c) file (clock-grows clock c timely.0) v))
      ]
    where
      clock-grows : (clock : ℕ) (c : Call) → InTime clock c → clock ≤ clock_of clock c
      clock-grows clock (Call.transacts callback) h = omega arith
      clock-grows clock (Call.claims o now) h = h
      clock-grows clock (Call.dispatches id lease_id at) h = omega arith
      clock-grows clock (Call.fails id failure o fresh) h = omega arith
      clock-grows clock (Call.resumes o now) h = omega arith

  -- After any history of calls on a queue that starts empty, where no claim reads an earlier clock than
  -- the claim before it and every lease ends by the year 9999: of two rows of one tenant, at most one is
  -- leased with an end after `now`, for every `now` from the last claim on.
  pub leases_exclude :
      (max : Option ℕ) (cs : List Call)
      → AllInTime 0 cs
      → All HasDate cs
      → (now : ℕ) → last_clock 0 cs ≤ now
      → Pairwise (AreApart now) (run id_le max [] cs)
  leases_exclude max cs timely dated now later =
      later-AreApart (last_clock 0 cs) now (run id_le max [] cs) later
        (run-AreApart max 0 [] cs timely dated tt tt)
