-- ===== src/Outbox/Ledgered.antt =====
-- The rolling ledger in a pass of `dispatchBatch` (storage/src/outbox-dispatcher.ts): it counts the rows that
-- the pass is handed, each with the bytes of its body.
use veritio.Prelude.{List}
use veritio.Prelude.Results.{Result, ok, throws}
use veritio.Outbox.{OutboxError}
use veritio.Outbox.Safety.{Send}
use veritio.Outbox.Dispatch.{DispatchResult, OutboxAdapter}
use veritio.Outbox.Pass.{Setup, Round, World}
use veritio.Outbox.Accounting.{logged}
use veritio.Outbox.Recorded.{IsRecorded}

module _ (adapter : OutboxAdapter) (s : Setup) (before : List Send) where
  -- A round, or a pass, that has not thrown has kept the ledger.
  IsKept : Round × World (logged adapter) s → Type 0
  IsKept (Round.goes r, w) = IsRecorded s.policy.hard before w.sends w.queue.1
  IsKept (Round.breaks r, w) = IsRecorded s.policy.hard before w.sends w.queue.1
  IsKept (Round.raises error, w) = Unit

  HasLedger : Result OutboxError DispatchResult × World (logged adapter) s → Type 0
  HasLedger (ok r, w) = IsRecorded s.policy.hard before w.sends w.queue.1
  HasLedger (throws error, w) = Unit
