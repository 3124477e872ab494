-- ===== src/Outbox/Pass.antt =====
-- `dispatchBatch` of storage/src/outbox-dispatcher.ts: a pass claims one row at a time within the permit
-- and the rolling limits, delivers it and settles it, and stops at the first failure.
use veritio.Prelude.{
  ℕ, zero, suc, ◌+◌, ◌-◌, String, none, some, List, [], ◌∷◌, leb, ◌==◌, if◌then◌else◌,
}
use veritio.Prelude.Results.{Result, ok, throws}
use veritio.Outbox.{
  Entry, ClaimOptions, Failure, OutboxError, DeliveryDisposition, outbox_payload_byte_length,
  or_now,
}
use veritio.Outbox.Safety.{
  DeliverySafetyPolicy, Send, prune, remaining_requests, remaining_bytes, record_send,
}
use veritio.Outbox.Dispatch.{
  DispatchOptions, DispatchResult, empty_dispatch_result, validate_dispatch_options,
  dispatch_lease_id, OutboxAdapter, EvidenceTarget, dispatch_outbox_entry, Ticks,
}

abbrev pub min : ℕ → ℕ → ℕ
min a b = if leb a b then a else b

-- What a round of the loop does: it goes on, breaks, or throws.
pub data Round : Type 0 where
  goes : DispatchResult → Round
  breaks : DispatchResult → Round
  raises : OutboxError → Round

abbrev pub sent : ℕ → DispatchResult → DispatchResult
sent bytes r = record r { bytes = r.bytes + bytes }

abbrev pub delivered : DispatchResult → DispatchResult
delivered r = record r { dispatched = suc r.dispatched }

abbrev pub put_back : DispatchResult → DispatchResult
put_back r = record r { retried = suc r.retried }

-- What a pass is given: the target, the policy of the dispatcher, the options of the call, the time at
-- which it starts, and the clock and the UUIDs of its rounds.
pub record Setup : Type 1 where
  pub target : EvidenceTarget
  pub policy : DeliverySafetyPolicy
  pub options : DispatchOptions
  pub started_at : ℕ
  pub ticks : ℕ → Ticks
  pub uuid : ℕ → String

module _ (adapter : OutboxAdapter) (s : Setup) where
  -- The ledger of the dispatcher, the queue and the s.target.
  pub record World : Type 0 where
    pub sends : List Send
    pub queue : adapter.Queue
    pub state : s.target.State

  -- The `catch` of the loop.
  unfoldable pub give_back : (index : ℕ) → DispatchResult → World → Entry → Failure → Round × World
  give_back index r w e failure =
      elim (adapter.mark_failed w.queue e.id failure
        (record {
          lease_id = e.lease_id;
          now = or_now (s.ticks index).fails s.options.now;
          available_at = none;
          retryable = none;
          disposition = some DeliveryDisposition.retry;
          circuit_id = none;
        })
        (s.uuid index)) [
          | ok done ↦ (Round.breaks (put_back r), record w { queue = done.1 })
          | throws error ↦ (Round.raises error, w)
        ]

  unfoldable pub settle_delivered : (index : ℕ) → DispatchResult → World → Entry → Round × World
  settle_delivered index r w e =
      elim (adapter.mark_dispatched w.queue e.id e.lease_id
        (or_now (s.ticks index).settles s.options.now)) [
          | ok done ↦ (Round.goes (delivered r), record w { queue = done.1 })
          | throws error ↦ give_back index r w e (s.target.caught error)
        ]

  -- A claimed row of so many bytes: the ledger counts it before it is sent.
  unfoldable pub send_bytes : (index bytes : ℕ) → DispatchResult → World → Entry → Round × World
  send_bytes index bytes r w e =
      let sends = record_send s.policy.hard (s.ticks index).records bytes w.sends in
      let (state, thrown) = dispatch_outbox_entry s.target w.state e.payload in
      let w' : World = record { sends = sends; queue = w.queue; state = state } in
      elim thrown [
        | none ↦ settle_delivered index (sent bytes r) w' e
        | some failure ↦ give_back index (sent bytes r) w' e failure
      ]

  -- A claimed row: the bytes are taken before the `try`.
  unfoldable pub send_entry : (index : ℕ) → DispatchResult → World → Entry → Round × World
  send_entry index r w e = elim (outbox_payload_byte_length e.payload) [
    | throws error ↦ (Round.raises error, w)
    | ok bytes ↦ send_bytes index bytes r w e
  ]

  unfoldable pub claim_options : (index remaining : ℕ) → ClaimOptions
  claim_options index remaining = record {
    tenant_id = some s.options.tenant_id;
    lease_id = dispatch_lease_id s.options.permit index (s.uuid index);
    lease_ms = s.options.permit.lease_ms;
    limit = 1;
    max_payload_bytes = min remaining s.policy.hard.batch_bytes;
  }

  abbrev pub next_entry : (index : ℕ) → DispatchResult → World → List Entry → Round × World
  next_entry index r w [] = (Round.breaks r, w)
  next_entry index r w (e ∷ rest) = send_entry index r w e

  unfoldable pub claim_next : (index remaining : ℕ) → DispatchResult → World → Round × World
  claim_next index remaining r w =
      elim (adapter.claim_dispatchable w.queue (claim_options index remaining)
        (or_now (s.ticks index).claims s.options.now)) [
          | ok claimed ↦ next_entry index r (record w { queue = claimed.1 }) claimed.0
          | throws error ↦ (Round.raises error, w)
        ]

  -- One round: the checks of the clock, the requests and the bytes, then the claim. Each reading of the
  -- ledger prunes it.
  unfoldable pub dispatch_round : (index : ℕ) → DispatchResult → World → Round × World
  dispatch_round index r w =
      let t = s.ticks index in
      let asked : World = record w { sends = prune s.policy.hard t.requests w.sends } in
      let read : World = record w { sends = prune s.policy.hard t.bytes asked.sends } in
      let remaining =
        min (s.options.permit.max_bytes - r.bytes)
          (remaining_bytes s.policy.hard t.bytes asked.sends) in
      if leb (s.started_at + s.options.permit.max_elapsed_ms) t.elapsed
      then (Round.breaks r, w)
      else if remaining_requests s.policy.hard t.requests w.sends == 0
      then (Round.breaks r, asked)
      else if remaining == 0
      then (Round.breaks r, read)
      else claim_next index remaining r read

  -- The loop, `rounds` being what is left of `permit.maxEntries`.
  unfoldable pub dispatch_rounds :
      (rounds index : ℕ) → DispatchResult → World → Result OutboxError DispatchResult × World
  dispatch_rounds zero index r w = (ok r, w)
  dispatch_rounds (suc rounds) index r w =
      let (round, w') = dispatch_round index r w in
      elim round [
        | Round.goes r' ↦ dispatch_rounds rounds (suc index) r' w'
        | Round.breaks r' ↦ (ok r', w')
        | Round.raises error ↦ (throws error, w')
      ]

  unfoldable pub dispatch_batch : World → Result OutboxError DispatchResult × World
  dispatch_batch w = elim (validate_dispatch_options s.options s.policy) [
    | ok u ↦ dispatch_rounds s.options.permit.max_entries 0 empty_dispatch_result w
    | throws error ↦ (throws error, w)
  ]
