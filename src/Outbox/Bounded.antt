-- ===== src/Outbox/Bounded.antt =====
-- The bounds of a pass of `dispatchBatch` (storage/src/outbox-dispatcher.ts): the permit bounds what one
-- pass does, and the ledger what all the passes of a dispatcher do.
use mathlib.Core.List.{append-nil}
use veritio.Prelude.{
  ℕ, zero, suc, ◌+◌, ◌-◌, ◌≤◌, ◌≡◌, refl, List, [], ◌∷◌, ◌++◌, false, leb, ◌==◌, inl, inr,
  Bool-cases, length, length-append, arith, if◌then◌else◌, subst,
}
use veritio.Prelude.Results.{Result, ok, throws, Result-cases}
use veritio.Outbox.{Entry, OutboxError, body_bytes, or_now}
use veritio.Outbox.Safety.{Send, prune, sent_bytes, remaining_requests, remaining_bytes}
use veritio.Outbox.Claiming.{total_bytes}
use veritio.Outbox.Dispatch.{
  DispatchResult, empty_dispatch_result, validate_dispatch_options, OutboxAdapter, Ticks,
}
use veritio.Outbox.Pass.{
  Setup, min, Round, sent, World, claim_options, next_entry, claim_next, dispatch_round,
  dispatch_rounds, dispatch_batch,
}
use veritio.Outbox.Accounting.{
  IsBounded, IsWithin, length-prune, prune-IsWithin, total_bytes-append, log_claims, logged,
  IsTraffic, IsExact, IsGoing, IsSent, IsGoing-stop, IsAnswer,
}
use veritio.Outbox.Rounds.{IsRound, send_entry-IsRound}

-- The rounds that start in time: those before the first whose clock has reached the permitted end.
unfoldable pub in_time : Setup → (rounds index : ℕ) → ℕ
in_time s zero index = 0
in_time s (suc rounds) index =
    let rest = in_time s rounds (suc index) in
    if leb (s.started_at + s.options.permit.max_elapsed_ms) (s.ticks index).elapsed
    then 0
    else suc rest

in_time-bounded : (s : Setup) (rounds index : ℕ) → in_time s rounds index ≤ rounds
unfolding in_time
in_time-bounded s zero index = omega arith
in_time-bounded s (suc rounds) index = ground (arith, in_time-bounded s rounds (suc index))

module _ (adapter : OutboxAdapter) (s : Setup) where
  -- What a pass has done that was handed at most so many rows.
  IsPass : ℕ → Result OutboxError DispatchResult × World (logged adapter) s → Type 0
  IsPass rows p =
      IsTraffic s.options.permit.max_bytes rows p.1.queue.1
      × IsAnswer p.1.queue.1 p.0
      × IsWithin s.policy.hard p.1.sends

  module _ (law : IsBounded adapter) where
    sent-IsSent :
        (index : ℕ) (r : DispatchResult) (log : List Entry) (e : Entry)
        → IsGoing s.options.permit.max_bytes index log r
        → r.bytes + body_bytes e.payload ≤ s.options.permit.max_bytes
        → IsSent s.options.permit.max_bytes index (log ++ e ∷ []) (sent (body_bytes e.payload) r)
    sent-IsSent index r log e g room = record {
      count = let a = g.count in omega (arith, length-append log (e ∷ []));
      dispatched = g.dispatched;
      retried = g.retried;
      others = g.others;
      bytes = let b = g.bytes in omega (arith, total_bytes-append log (e ∷ []));
      within = let b = g.bytes in omega (arith, total_bytes-append log (e ∷ []));
    }

    claim_next-IsRound :
        (index rows : ℕ)
        → suc index ≤ rows
        → (remaining : ℕ) (r : DispatchResult) (w : World (logged adapter) s)
        → IsGoing s.options.permit.max_bytes index w.queue.1 r
        → IsWithin s.policy.hard w.sends
        → r.bytes + remaining ≤ s.options.permit.max_bytes
        → suc (length w.sends) ≤ s.policy.hard.rolling_requests
        → sent_bytes w.sends + remaining ≤ s.policy.hard.rolling_send_bytes
        → IsRound adapter s index rows (claim_next (logged adapter) s index remaining r w)
    unfolding IsRound claim_next claim_options
    claim_next-IsRound index rows ahead remaining r w g l room one space =
        go
          (adapter.claim_dispatchable w.queue.0 (claim_options (logged adapter) s index remaining)
            (or_now (s.ticks index).claims s.options.now))
          refl
      where
        stop : IsTraffic s.options.permit.max_bytes rows w.queue.1 × IsExact w.queue.1 r
        stop = IsGoing-stop s.options.permit.max_bytes index rows w.queue.1 r (omega arith) g

        go :
            (answer : Result OutboxError (List Entry × adapter.Queue))
            → adapter.claim_dispatchable w.queue.0
                (claim_options (logged adapter) s index remaining)
                (or_now (s.ticks index).claims s.options.now)
              ≡ answer
            → IsRound adapter s index rows (elim (log_claims w.queue.1 answer) [
              | ok claimed ↦
                  next_entry (logged adapter) s index r (record w { queue = claimed.1 }) claimed.0
              | throws error ↦ (Round.raises error, w)
            ])
        go (throws error) found = (stop.0, l)
        go (ok ([], queue)) found = (rw (append-nil w.queue.1) stop, l)
        go (ok (e ∷ [], queue)) found =
            let law' = (law.claims w.queue.0 _ _ (e ∷ []) queue found).1 in
            let small : body_bytes e.payload ≤ remaining = ground arith in
            send_entry-IsRound adapter s index rows ahead r
              (record w { queue = (queue, w.queue.1 ++ e ∷ []) }) e
              (sent-IsSent index r w.queue.1 e g (omega arith)) l one (omega arith)
        go (ok (e ∷ (x ∷ rest), queue)) found =
            let law' = (law.claims w.queue.0 _ _ (e ∷ (x ∷ rest)) queue found).0 in
            absurd (omega arith)

    dispatch_round-IsRound :
        (index rows : ℕ) (r : DispatchResult) (w : World (logged adapter) s)
        → index ≤ rows
        → (leb (s.started_at + s.options.permit.max_elapsed_ms) (s.ticks index).elapsed ≡ false
            → suc index ≤ rows)
        → IsGoing s.options.permit.max_bytes index w.queue.1 r
        → IsWithin s.policy.hard w.sends
        → IsRound adapter s index rows (dispatch_round (logged adapter) s index r w)
    unfolding IsRound dispatch_round remaining_requests remaining_bytes
    dispatch_round-IsRound index rows r w near ahead g l =
        elim (Bool-cases (leb (s.started_at + s.options.permit.max_elapsed_ms) t.elapsed)) [
          | inl over ↦ rw over (stop, l)
          | inr early ↦
              rw early (elim (Bool-cases (s.policy.hard.rolling_requests - length asked == 0)) [
                | inl full ↦ rw full (stop, prune-IsWithin s.policy.hard t.requests w.sends l)
                | inr free ↦ rw free (elim (Bool-cases (remaining == 0)) [
                  | inl spent ↦ rw spent (stop, l')
                  | inr left ↦ rw left (
                      claim_next-IsRound index rows (ahead early) remaining r
                        (record w { sends = read }) g l'
                        (let b = g.bytes in let c = g.within in ground arith)
                        (let shorter = length-prune s.policy.hard t.bytes asked in ground arith)
                        (let k = l'.bytes in ground arith))
                ])
              ])
        ]
      where
        t : Ticks
        t = s.ticks index

        asked : List Send
        asked = prune s.policy.hard t.requests w.sends

        read : List Send
        read = prune s.policy.hard t.bytes asked

        remaining : ℕ
        remaining =
            min (s.options.permit.max_bytes - r.bytes)
              (s.policy.hard.rolling_send_bytes - sent_bytes read)

        stop : IsTraffic s.options.permit.max_bytes rows w.queue.1 × IsExact w.queue.1 r
        stop = IsGoing-stop s.options.permit.max_bytes index rows w.queue.1 r near g

        l' : IsWithin s.policy.hard read
        l' =
            prune-IsWithin s.policy.hard t.bytes asked
              (prune-IsWithin s.policy.hard t.requests w.sends l)

    dispatch_rounds-IsAnswer :
        (rounds index : ℕ) (r : DispatchResult) (w : World (logged adapter) s)
        → IsGoing s.options.permit.max_bytes index w.queue.1 r
        → IsWithin s.policy.hard w.sends
        → IsPass
            (index + in_time s rounds index)
            (dispatch_rounds (logged adapter) s rounds index r w)
    unfolding dispatch_rounds IsRound IsPass in_time
    dispatch_rounds-IsAnswer zero index r w g l =
        let (traffic, exact) =
          IsGoing-stop s.options.permit.max_bytes index (index + 0) w.queue.1 r (omega arith) g in
        (traffic, exact, l)
    dispatch_rounds-IsAnswer (suc rounds) index r w g l =
        elim (Bool-cases
          (leb (s.started_at + s.options.permit.max_elapsed_ms) (s.ticks index).elapsed)) [
            | inl over ↦
                let near : index ≤ index + 0 = omega arith in
                let h = dispatch_round-IsRound index (index + 0) r w near (λ early. cc) g l in
                rw over (
                  go (index + 0) (dispatch_round (logged adapter) s index r w) h
                    (λ r' w' ahead g' l'. absurd (omega arith)))
            | inr early ↦
                let rest = in_time s rounds (suc index) in
                let near : index ≤ index + suc rest = omega arith in
                let ahead : suc index ≤ index + suc rest = omega arith in
                let same : suc index + rest ≡ index + suc rest = omega arith in
                let h = dispatch_round-IsRound index (index + suc rest) r w near (λ k. ahead) g l in
                rw early (
                  go (index + suc rest) (dispatch_round (logged adapter) s index r w) h
                    (λ r' w' ahead' g' l'.
                      subst
                        (λ n.
                          IsPass n (dispatch_rounds (logged adapter) s rounds (suc index) r' w'))
                        same (dispatch_rounds-IsAnswer rounds (suc index) r' w' g' l')))
          ]
      where
        go :
            (rows : ℕ) (x : Round × World (logged adapter) s)
            → IsRound adapter s index rows x
            → ((r' : DispatchResult) (w' : World (logged adapter) s)
                → suc index ≤ rows
                → IsGoing s.options.permit.max_bytes (suc index) w'.queue.1 r'
                → IsWithin s.policy.hard w'.sends
                → IsPass rows (dispatch_rounds (logged adapter) s rounds (suc index) r' w'))
            → IsPass rows (elim x.0 [
              | Round.goes r' ↦ dispatch_rounds (logged adapter) s rounds (suc index) r' x.1
              | Round.breaks r' ↦ (ok r', x.1)
              | Round.raises error ↦ (throws error, x.1)
            ])
        go rows (Round.goes r', w') (sound, within) rest = rest r' w' sound.1 sound.0 within
        go rows (Round.breaks r', w') (sound, within) rest = (sound.0, sound.1, within)
        go rows (Round.raises error, w') (sound, within) rest = (sound, tt, within)

    -- Over an adapter whose claims keep to their bounds on rows and bytes, for any target, clock and UUIDs,
    -- a pass from an empty log, whether it returns or throws: the rows that the adapter has handed out in
    -- it are at most `maxEntries`, at most as many as rounds start within `maxElapsedMs`, and of at most
    -- `maxBytes` bytes in all; where it returns, it tells their bytes and their number, delivered or put
    -- back, at most one put back; and a ledger within the hard limits stays within them.
    pub pass_bounded :
        (w : World (logged adapter) s)
        → w.queue.1 ≡ []
        → IsWithin s.policy.hard w.sends
        → let p = dispatch_batch (logged adapter) s w in
          let log = p.1.queue.1 in
          (length log ≤ s.options.permit.max_entries)
          × (length log ≤ in_time s s.options.permit.max_entries 0)
          × (total_bytes log ≤ s.options.permit.max_bytes)
          × IsAnswer log p.0
          × IsWithin s.policy.hard p.1.sends
    unfolding dispatch_batch IsPass
    pass_bounded w empty l = elim (Result-cases (validate_dispatch_options s.options s.policy)) [
      | inr (error, refused) ↦
          rw (refused, dispatch_batch) (rw empty (omega arith, omega arith, omega arith, tt, l))
      | inl (u, valid) ↦
          let all = in_time-bounded s s.options.permit.max_entries 0 in
          let (traffic, answer, within) =
            dispatch_rounds-IsAnswer s.options.permit.max_entries 0 empty_dispatch_result w
              (record {
                count = rw empty refl;
                dispatched = refl;
                retried = refl;
                others = (refl, refl);
                bytes = rw empty refl;
                within = rw empty (omega arith);
              })
              l in
          let rows = traffic.count in
          rw (valid, dispatch_batch) (omega arith, omega arith, traffic.bytes, answer, within)
    ]
