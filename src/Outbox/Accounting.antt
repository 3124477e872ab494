-- ===== src/Outbox/Accounting.antt =====
-- The accounting of a dispatch pass (storage/src/outbox-dispatcher.ts) and the rolling ledger within its
-- limits: what a round keeps.
use veritio.Prelude.{ℕ, suc, ◌+◌, ◌≤◌, ◌≡◌, List, [], ◌∷◌, ◌++◌, length, length-append, arith}
use veritio.Prelude.Results.{Result, ok, throws}
use veritio.Outbox.{Entry, ClaimOptions, OutboxError}
use veritio.Outbox.Safety.{Hard, Send, prune, sent_bytes, record_send}
use veritio.Outbox.Claiming.{total_bytes}
use veritio.Outbox.Dispatch.{DispatchResult, OutboxAdapter}
use veritio.Outbox.Pass.{Round}

-- What the dispatcher relies on: a claim of at most so many rows and bytes has no more.
pub record IsBounded (adapter : OutboxAdapter) : Type 0 where
  pub claims :
      (queue : adapter.Queue) (o : ClaimOptions) (now : ℕ) (claims : List Entry)
      (after : adapter.Queue)
      → adapter.claim_dispatchable queue o now ≡ ok (claims, after)
      → (length claims ≤ o.limit) × (total_bytes claims ≤ o.max_payload_bytes)

-- A ledger within the hard limits.
pub record IsWithin (hard : Hard) (sends : List Send) : Type 0 where
  pub requests : length sends ≤ hard.rolling_requests
  pub bytes : sent_bytes sends ≤ hard.rolling_send_bytes

pub length-prune :
    (hard : Hard) (now : ℕ) (sends : List Send) → length (prune hard now sends) ≤ length sends
unfolding prune
length-prune hard now [] = omega arith
length-prune hard now (s ∷ ss) = ground (arith, length-prune hard now ss)

pub sent_bytes-prune :
    (hard : Hard) (now : ℕ) (sends : List Send)
    → sent_bytes (prune hard now sends) ≤ sent_bytes sends
unfolding prune
sent_bytes-prune hard now [] = omega arith
sent_bytes-prune hard now (s ∷ ss) = ground (arith, sent_bytes-prune hard now ss)

sent_bytes-append :
    (sends : List Send) (s : Send) → sent_bytes (sends ++ s ∷ []) ≡ sent_bytes sends + s.bytes
sent_bytes-append [] s = omega arith
sent_bytes-append (x ∷ xs) s = omega (arith, sent_bytes-append xs s)

pub prune-IsWithin :
    (hard : Hard) (now : ℕ) (sends : List Send)
    → IsWithin hard sends
    → IsWithin hard (prune hard now sends)
prune-IsWithin hard now sends w = record {
  requests = let a = w.requests in omega (arith, length-prune hard now sends);
  bytes = let a = w.bytes in omega (arith, sent_bytes-prune hard now sends);
}

pub record-IsWithin :
    (hard : Hard) (now bytes : ℕ) (sends : List Send)
    → suc (length sends) ≤ hard.rolling_requests
    → sent_bytes sends + bytes ≤ hard.rolling_send_bytes
    → IsWithin hard (record_send hard now bytes sends)
unfolding record_send
record-IsWithin hard now bytes sends room space = record {
  requests =
      rw (length-append (prune hard now sends) (record { at = now; bytes = bytes } ∷ []))
        (omega (arith, length-prune hard now sends));
  bytes =
      rw (sent_bytes-append (prune hard now sends) (record { at = now; bytes = bytes }))
        (omega (arith, sent_bytes-prune hard now sends));
}

pub total_bytes-append :
    (log claims : List Entry) → total_bytes (log ++ claims) ≡ total_bytes log + total_bytes claims
total_bytes-append [] claims = omega arith
total_bytes-append (x ∷ xs) claims = omega (arith, total_bytes-append xs claims)

-- An adapter that keeps a log of the rows that it has handed out.
abbrev pub log_claims :
    {Q : Type 0}
    → List Entry
    → Result OutboxError (List Entry × Q)
    → Result OutboxError (List Entry × (Q × List Entry))
log_claims log (ok (claims, queue)) = ok (claims, (queue, log ++ claims))
log_claims log (throws error) = throws error

abbrev pub keep_log :
    {Q : Type 0}
    → List Entry
    → Result OutboxError (Entry × Q)
    → Result OutboxError (Entry × (Q × List Entry))
keep_log log (ok (e, queue)) = ok (e, (queue, log))
keep_log log (throws error) = throws error

abbrev pub logged : OutboxAdapter → OutboxAdapter
logged adapter = record {
  Queue = adapter.Queue × List Entry;
  claim_dispatchable = λ queue o now. log_claims queue.1 (adapter.claim_dispatchable queue.0 o now);
  mark_dispatched =
      λ queue id lease_id at. keep_log queue.1 (adapter.mark_dispatched queue.0 id lease_id at);
  mark_failed =
      λ queue id failure o fresh. keep_log queue.1 (adapter.mark_failed queue.0 id failure o fresh);
}

-- The rows that a pass was handed, which it may send: at most so many, of at most so many bytes.
pub record IsTraffic (max_bytes rows : ℕ) (log : List Entry) : Type 0 where
  pub count : length log ≤ rows
  pub bytes : total_bytes log ≤ max_bytes

-- A result that tells what the pass was handed.
pub record IsExact (log : List Entry) (r : DispatchResult) : Type 0 where
  pub entries : r.dispatched + r.retried ≡ length log
  pub retried : r.retried ≤ 1
  pub others : (r.paused ≡ 0) × (r.rejected ≡ 0)
  pub bytes : r.bytes ≡ total_bytes log

-- The accounting before the round `index`, and in it once a row is claimed and its bytes are counted.
pub record IsGoing (max_bytes index : ℕ) (log : List Entry) (r : DispatchResult) : Type 0 where
  pub count : length log ≡ index
  pub dispatched : r.dispatched ≡ index
  pub retried : r.retried ≡ 0
  pub others : (r.paused ≡ 0) × (r.rejected ≡ 0)
  pub bytes : r.bytes ≡ total_bytes log
  pub within : total_bytes log ≤ max_bytes

pub record IsSent (max_bytes index : ℕ) (log : List Entry) (r : DispatchResult) : Type 0 where
  pub count : length log ≡ suc index
  pub dispatched : r.dispatched ≡ index
  pub retried : r.retried ≡ 0
  pub others : (r.paused ≡ 0) × (r.rejected ≡ 0)
  pub bytes : r.bytes ≡ total_bytes log
  pub within : total_bytes log ≤ max_bytes

pub IsGoing-stop :
    (max_bytes index rows : ℕ) (log : List Entry) (r : DispatchResult)
    → index ≤ rows
    → IsGoing max_bytes index log r
    → IsTraffic max_bytes rows log × IsExact log r
IsGoing-stop max_bytes index rows log r room g = (
  record { count = let a = g.count in omega arith; bytes = g.within },
  record {
    entries = let a = g.count in let b = g.dispatched in let c = g.retried in omega arith;
    retried = let c = g.retried in omega arith;
    others = g.others;
    bytes = g.bytes;
  },
)

pub IsSent-IsTraffic :
    (max_bytes index rows : ℕ) (log : List Entry) (r : DispatchResult)
    → suc index ≤ rows
    → IsSent max_bytes index log r
    → IsTraffic max_bytes rows log
IsSent-IsTraffic max_bytes index rows log r room g = record {
  count = let a = g.count in omega arith;
  bytes = g.within;
}

abbrev pub IsSound : (max_bytes index rows : ℕ) → List Entry → Round → Type 0
IsSound max_bytes index rows log (Round.goes r) =
    IsGoing max_bytes (suc index) log r × (suc index ≤ rows)
IsSound max_bytes index rows log (Round.breaks r) = IsTraffic max_bytes rows log × IsExact log r
IsSound max_bytes index rows log (Round.raises error) = IsTraffic max_bytes rows log

-- What a pass may answer: a result that tells what it was handed, or a throw.
abbrev pub IsAnswer : List Entry → Result OutboxError DispatchResult → Type 0
IsAnswer log (ok r) = IsExact log r
IsAnswer log (throws error) = Unit
