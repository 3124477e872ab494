-- ===== src/Outbox/Local.antt =====
-- The dispatcher on the file queue (storage/src/outbox-dispatcher.ts and storage/src/outbox-file.ts): what a
-- pass does to the file is a history of calls, so all that holds over histories holds over passes.
use veritio.Prelude.{
  ℕ, zero, suc, ◌+◌, ◌-◌, ◌≤◌, ◌≡◌, refl, String, none, some, List, [], ◌∷◌, Bool, true, leb, ◌==◌,
  inl, inr, Bool-cases, Option-cases, All, All-map, Any,
}
use veritio.Prelude.Results.{Result, ok, throws, Result-cases}
use veritio.Outbox.{
  Entry, Failure, OutboxError, DeliveryDisposition, is_circuit_id, resolve_circuit_id, or_now,
  outbox_payload_byte_length,
}
use veritio.Outbox.File.{lease, backlog}
use veritio.Outbox.Settle.{FailOptions, claim_dispatchable, mark_dispatched, mark_failed}
use veritio.Outbox.Calls.{Call, call}
use veritio.Outbox.Queue.{IsQueue, run-IsQueue}
use veritio.Outbox.Claimed.{claims_bounded}
use veritio.Outbox.Backlog.{HasLease, backlog_bounded}
use veritio.Outbox.Survival.{HasOwnLease, Survives, rows_survive}
use veritio.Outbox.Safety.{prune, remaining_requests, remaining_bytes}
use veritio.Outbox.Dispatch.{
  DispatchResult, empty_dispatch_result, validate_dispatch_options, OutboxAdapter,
  dispatch_outbox_entry,
}
use veritio.Outbox.Pass.{
  Setup, min, Round, World, give_back, settle_delivered, send_bytes, send_entry, claim_options,
  claim_next, dispatch_round, dispatch_rounds, dispatch_batch,
}
use veritio.Outbox.Accounting.{IsBounded}
use veritio.Outbox.Reaches.{Reaches, Reaches-refl, Reaches-trans, Reaches-call}

-- The file queue as an adapter.
abbrev pub file_adapter : (String → String → Bool) → OutboxAdapter
file_adapter id_le = record {
  Queue = List Entry;
  claim_dispatchable = claim_dispatchable id_le;
  mark_dispatched = mark_dispatched id_le;
  mark_failed = mark_failed id_le;
}

pub file_adapter-IsBounded : (id_le : String → String → Bool) → IsBounded (file_adapter id_le)
file_adapter-IsBounded id_le = record {
  claims = λ file o now claims after h.
      let (count, bytes, leased, apart) = claims_bounded id_le file o now claims after h in
      (count, bytes);
}

own_lease : (c : Call) → HasOwnLease c → HasLease c
own_lease (Call.transacts callback) h = tt
own_lease (Call.claims o now) h = tt
own_lease (Call.dispatches id lease_id at) h = tt
own_lease (Call.fails id failure o fresh) h = h
own_lease (Call.resumes o now) h = tt

module _ (id_le : String → String → Bool) where
  module _ (s : Setup)
      (uuids : (index : ℕ) → is_circuit_id (resolve_circuit_id none (s.uuid index)) ≡ true) where
    back_options : (index : ℕ) → Entry → FailOptions
    back_options index e = record {
      lease_id = e.lease_id;
      now = or_now (s.ticks index).fails s.options.now;
      available_at = none;
      retryable = none;
      disposition = some DeliveryDisposition.retry;
      circuit_id = none;
    }

    give_back-Reaches :
        (index : ℕ) (r : DispatchResult) (w : World (file_adapter id_le) s) (e : Entry) (l : String)
        (failure : Failure)
        → e.lease_id ≡ some l
        → Reaches id_le w.queue (give_back (file_adapter id_le) s index r w e failure).1.queue
    unfolding give_back back_options call
    give_back-Reaches index r w e l failure own =
        elim (Result-cases
          (mark_failed id_le w.queue e.id failure (back_options index e) (s.uuid index))) [
            | inl (done, marked) ↦
                rw (marked, give_back)
                  (Reaches-call id_le w.queue
                    (Call.fails e.id failure (back_options index e) (s.uuid index)) done.1 (l, own)
                    (uuids index) (λ max. rw (marked, call) refl))
            | inr (error, refused) ↦ rw (refused, give_back) (Reaches-refl id_le w.queue)
          ]

    settle_delivered-Reaches :
        (index : ℕ) (r : DispatchResult) (w : World (file_adapter id_le) s) (e : Entry) (l : String)
        → e.lease_id ≡ some l
        → Reaches id_le w.queue (settle_delivered (file_adapter id_le) s index r w e).1.queue
    unfolding settle_delivered call
    settle_delivered-Reaches index r w e l own =
        let at = or_now (s.ticks index).settles s.options.now in
        elim (Result-cases (mark_dispatched id_le w.queue e.id e.lease_id at)) [
          | inl (done, marked) ↦
              rw (marked, settle_delivered)
                (Reaches-call id_le w.queue (Call.dispatches e.id e.lease_id at) done.1 (l, own) tt
                  (λ max. rw (marked, call) refl))
          | inr (error, refused) ↦
              rw (refused, settle_delivered)
                (give_back-Reaches index r w e l (s.target.caught error) own)
        ]

    send_bytes-Reaches :
        (index bytes : ℕ) (r : DispatchResult) (w : World (file_adapter id_le) s) (e : Entry)
        (l : String)
        → e.lease_id ≡ some l
        → Reaches id_le w.queue (send_bytes (file_adapter id_le) s index bytes r w e).1.queue
    unfolding send_bytes
    send_bytes-Reaches index bytes r w e l own =
        elim (Option-cases (dispatch_outbox_entry s.target w.state e.payload).1) [
          | inl fine ↦ rw (fine, send_bytes) (settle_delivered-Reaches index _ _ e l own)
          | inr (failure, thrown) ↦
              rw (thrown, send_bytes) (give_back-Reaches index _ _ e l failure own)
        ]

    send_entry-Reaches :
        (index : ℕ) (r : DispatchResult) (w : World (file_adapter id_le) s) (e : Entry) (l : String)
        → e.lease_id ≡ some l
        → Reaches id_le w.queue (send_entry (file_adapter id_le) s index r w e).1.queue
    unfolding send_entry
    send_entry-Reaches index r w e l own =
        elim (Result-cases (outbox_payload_byte_length e.payload)) [
          | inl (bytes, counted) ↦
              rw (counted, send_entry) (send_bytes-Reaches index bytes r w e l own)
          | inr (error, refused) ↦ rw (refused, send_entry) (Reaches-refl id_le w.queue)
        ]

    claim_next-Reaches :
        (index remaining : ℕ) (r : DispatchResult) (w : World (file_adapter id_le) s)
        → Reaches id_le w.queue (claim_next (file_adapter id_le) s index remaining r w).1.queue
    unfolding claim_next call lease
    claim_next-Reaches index remaining r w =
        let options = claim_options (file_adapter id_le) s index remaining in
        let now = or_now (s.ticks index).claims s.options.now in
        elim (Result-cases (claim_dispatchable id_le w.queue options now)) [
          | inr (error, refused) ↦ rw (refused, claim_next) (Reaches-refl id_le w.queue)
          | inl (([], after), claimed) ↦
              rw (claimed, claim_next)
                (Reaches-call id_le w.queue (Call.claims options now) after tt tt
                  (λ max. rw (claimed, call) refl))
          | inl ((e ∷ rest, after), claimed) ↦
              let leased =
                (claims_bounded id_le w.queue options now (e ∷ rest) after claimed).2.0 in
              rw (claimed, claim_next)
                (Reaches-trans id_le w.queue after _
                  (Reaches-call id_le w.queue (Call.claims options now) after tt tt
                    (λ max. rw (claimed, call) refl))
                  (send_entry-Reaches index r (record w { queue = after }) e options.lease_id
                    leased.lease_id))
        ]

    dispatch_round-Reaches :
        (index : ℕ) (r : DispatchResult) (w : World (file_adapter id_le) s)
        → Reaches id_le w.queue (dispatch_round (file_adapter id_le) s index r w).1.queue
    unfolding dispatch_round
    dispatch_round-Reaches index r w =
        let t = s.ticks index in
        let asked = prune s.policy.hard t.requests w.sends in
        let remaining =
          min (s.options.permit.max_bytes - r.bytes)
            (remaining_bytes s.policy.hard t.bytes asked) in
        elim (Bool-cases (leb (s.started_at + s.options.permit.max_elapsed_ms) t.elapsed)) [
          | inl over ↦ rw over (Reaches-refl id_le w.queue)
          | inr early ↦
              rw early
                (elim (Bool-cases (remaining_requests s.policy.hard t.requests w.sends == 0)) [
                  | inl full ↦ rw full (Reaches-refl id_le w.queue)
                  | inr free ↦ rw free (elim (Bool-cases (remaining == 0)) [
                    | inl spent ↦ rw spent (Reaches-refl id_le w.queue)
                    | inr left ↦ rw left (claim_next-Reaches index remaining r _)
                  ])
                ])
        ]

    dispatch_rounds-Reaches :
        (rounds index : ℕ) (r : DispatchResult) (w : World (file_adapter id_le) s)
        → Reaches id_le w.queue (dispatch_rounds (file_adapter id_le) s rounds index r w).1.queue
    unfolding dispatch_rounds
    dispatch_rounds-Reaches zero index r w = Reaches-refl id_le w.queue
    dispatch_rounds-Reaches (suc rounds) index r w =
        go (dispatch_round (file_adapter id_le) s index r w) (dispatch_round-Reaches index r w)
          (λ r' w'. dispatch_rounds-Reaches rounds (suc index) r' w')
      where
        go :
            (x : Round × World (file_adapter id_le) s)
            → Reaches id_le w.queue x.1.queue
            → ((r' : DispatchResult) (w' : World (file_adapter id_le) s)
                → Reaches id_le w'.queue
                    (dispatch_rounds (file_adapter id_le) s rounds (suc index) r' w').1.queue)
            → let p : Result OutboxError DispatchResult × World (file_adapter id_le) s = elim x.0 [
              | Round.goes r' ↦ dispatch_rounds (file_adapter id_le) s rounds (suc index) r' x.1
              | Round.breaks r' ↦ (ok r', x.1)
              | Round.raises error ↦ (throws error, x.1)
            ] in
              Reaches id_le w.queue p.1.queue
        go (Round.goes r', w') h rest = Reaches-trans id_le w.queue w'.queue _ h (rest r' w')
        go (Round.breaks r', w') h rest = h
        go (Round.raises error, w') h rest = h

    dispatch_batch-Reaches :
        (w : World (file_adapter id_le) s)
        → Reaches id_le w.queue (dispatch_batch (file_adapter id_le) s w).1.queue
    unfolding dispatch_batch
    dispatch_batch-Reaches w = elim (Result-cases (validate_dispatch_options s.options s.policy)) [
      | inl (u, valid) ↦
          rw (valid, dispatch_batch)
            (dispatch_rounds-Reaches s.options.permit.max_entries 0 empty_dispatch_result w)
      | inr (error, refused) ↦ rw (refused, dispatch_batch) (Reaches-refl id_le w.queue)
    ]

    -- A dispatch pass over the file queue, whether it returns or throws, with any target, clock and
    -- well-formed UUIDs: a file of valid rows with unique ids stays one, its rows stay with their
    -- evidence, the delivered and the dead ones unchanged, and a byte ceiling that its backlog
    -- met is met again.
    pub pass_keeps_queue :
        (w : World (file_adapter id_le) s) (max : ℕ)
        → IsQueue w.queue
        → backlog w.queue ≤ max
        → let after = (dispatch_batch (file_adapter id_le) s w).1.queue in
          IsQueue after × All (λ e. Any (Survives e) after) w.queue × (backlog after ≤ max)
    pass_keeps_queue w max v within =
        let h = dispatch_batch-Reaches w in
        (
          rw (h.leads none) (run-IsQueue id_le none w.queue h.calls h.named v),
          rw (h.leads none) (rows_survive id_le none w.queue h.calls h.named h.owned),
          rw (h.leads (some max)) (
              backlog_bounded id_le max w.queue h.calls
                (All-map HasOwnLease HasLease own_lease h.calls h.owned) within),
        )
