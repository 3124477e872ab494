-- ===== src/Outbox/Rounds.antt =====
-- A row that a round of `dispatchBatch` (storage/src/outbox-dispatcher.ts) is handed: what sending, settling
-- and putting it back keep of the accounting and of the ledger.
use veritio.Prelude.{ℕ, suc, ◌+◌, ◌≤◌, ◌≡◌, Option, none, some, inl, inr, length, arith}
use veritio.Prelude.Results.{Result, ok, throws, Result-cases, >>=-eq-ok, ok-injective}
use veritio.Outbox.{
  Entry, Payload, Failure, OutboxError, validate_payload, body_bytes, outbox_payload_byte_length,
}
use veritio.Outbox.Safety.{sent_bytes, record_send}
use veritio.Outbox.Dispatch.{DispatchResult, OutboxAdapter, dispatch_outbox_entry}
use veritio.Outbox.Pass.{
  Setup, Round, sent, delivered, put_back, World, give_back, settle_delivered, send_bytes,
  send_entry,
}
use veritio.Outbox.Accounting.{
  IsWithin, record-IsWithin, keep_log, logged, IsSent, IsSent-IsTraffic, IsSound,
}

pub byte_length-eq-ok :
    (p : Payload) (n : ℕ) → outbox_payload_byte_length p ≡ ok n → body_bytes p ≡ n
unfolding outbox_payload_byte_length
byte_length-eq-ok p n h =
    let (u, valid, done) = >>=-eq-ok (validate_payload p none) _ h in ok-injective done

module _ (adapter : OutboxAdapter) (s : Setup) where
  unfoldable pub IsRound : (index rows : ℕ) → Round × World (logged adapter) s → Type 0
  IsRound index rows x =
      IsSound s.options.permit.max_bytes index rows x.1.queue.1 x.0
      × IsWithin s.policy.hard x.1.sends

  module _ (index rows : ℕ) (room : suc index ≤ rows) where
    give_back-IsRound :
        (r : DispatchResult) (w : World (logged adapter) s) (e : Entry) (failure : Failure)
        → IsSent s.options.permit.max_bytes index w.queue.1 r
        → IsWithin s.policy.hard w.sends
        → IsRound index rows (give_back (logged adapter) s index r w e failure)
    unfolding IsRound give_back
    give_back-IsRound r w e failure g l = go _
      where
        go :
            (answer : Result OutboxError (Entry × adapter.Queue))
            → IsRound index rows (elim (keep_log w.queue.1 answer) [
              | ok done ↦ (Round.breaks (put_back r), record w { queue = done.1 })
              | throws error ↦ (Round.raises error, w)
            ])
        go (ok done) = (
          (
            IsSent-IsTraffic s.options.permit.max_bytes index rows w.queue.1 r room g,
            record {
              entries = let a = g.count in let b = g.dispatched in let c = g.retried in omega arith;
              retried = let c = g.retried in omega arith;
              others = g.others;
              bytes = g.bytes;
            },
          ),
          l,
        )
        go (throws error) =
            (IsSent-IsTraffic s.options.permit.max_bytes index rows w.queue.1 r room g, l)

    settle_delivered-IsRound :
        (r : DispatchResult) (w : World (logged adapter) s) (e : Entry)
        → IsSent s.options.permit.max_bytes index w.queue.1 r
        → IsWithin s.policy.hard w.sends
        → IsRound index rows (settle_delivered (logged adapter) s index r w e)
    unfolding IsRound settle_delivered
    settle_delivered-IsRound r w e g l = go _
      where
        go :
            (answer : Result OutboxError (Entry × adapter.Queue))
            → IsRound index rows (elim (keep_log w.queue.1 answer) [
              | ok done ↦ (Round.goes (delivered r), record w { queue = done.1 })
              | throws error ↦ give_back (logged adapter) s index r w e (s.target.caught error)
            ])
        go (ok done) = (
          (
            record {
              count = g.count;
              dispatched = let a = g.dispatched in omega arith;
              retried = g.retried;
              others = g.others;
              bytes = g.bytes;
              within = g.within;
            },
            room,
          ),
          l,
        )
        go (throws error) = give_back-IsRound r w e (s.target.caught error) g l

    send_bytes-IsRound :
        (bytes : ℕ) (r : DispatchResult) (w : World (logged adapter) s) (e : Entry)
        → IsSent s.options.permit.max_bytes index w.queue.1 (sent bytes r)
        → suc (length w.sends) ≤ s.policy.hard.rolling_requests
        → sent_bytes w.sends + bytes ≤ s.policy.hard.rolling_send_bytes
        → IsRound index rows (send_bytes (logged adapter) s index bytes r w e)
    unfolding send_bytes
    send_bytes-IsRound bytes r w e g one space =
        go (dispatch_outbox_entry s.target w.state e.payload).1
      where
        w' : World (logged adapter) s
        w' = record {
          sends = record_send s.policy.hard (s.ticks index).records bytes w.sends;
          queue = w.queue;
          state = (dispatch_outbox_entry s.target w.state e.payload).0;
        }

        l : IsWithin s.policy.hard w'.sends
        l = record-IsWithin s.policy.hard (s.ticks index).records bytes w.sends one space

        go :
            (thrown : Option Failure)
            → IsRound index rows (elim thrown [
              | none ↦ settle_delivered (logged adapter) s index (sent bytes r) w' e
              | some failure ↦ give_back (logged adapter) s index (sent bytes r) w' e failure
            ])
        go none = settle_delivered-IsRound (sent bytes r) w' e g l
        go (some failure) = give_back-IsRound (sent bytes r) w' e failure g l

    pub send_entry-IsRound :
        (r : DispatchResult) (w : World (logged adapter) s) (e : Entry)
        → IsSent s.options.permit.max_bytes index w.queue.1 (sent (body_bytes e.payload) r)
        → IsWithin s.policy.hard w.sends
        → suc (length w.sends) ≤ s.policy.hard.rolling_requests
        → sent_bytes w.sends + body_bytes e.payload ≤ s.policy.hard.rolling_send_bytes
        → IsRound index rows (send_entry (logged adapter) s index r w e)
    unfolding IsRound send_entry
    send_entry-IsRound r w e g l one space =
        elim (Result-cases (outbox_payload_byte_length e.payload)) [
          | inl (bytes, counted) ↦
              let same = byte_length-eq-ok e.payload bytes counted in
              rw (counted, send_entry)
                (send_bytes-IsRound bytes r w e (rw same at g) one (rw same at space))
          | inr (error, refused) ↦
              rw (refused, send_entry)
                (
                  IsSent-IsTraffic s.options.permit.max_bytes index rows w.queue.1
                      (sent (body_bytes e.payload) r) room g,
                  l,
                )
        ]
