-- ===== src/Outbox/Safety.antt =====
-- The delivery limits: the policy of storage/src/delivery-safety.ts, parsed from an untrusted JSON value,
-- and the rolling ledger of storage/src/outbox-dispatcher.ts. What remains of a limit is 0 where the
-- program's difference is 0 or less; the callers only ask whether it is above 0.
use veritio.Prelude.{
  ℕ, ◌+◌, ◌-◌, Option, none, some, List, [], ◌∷◌, ◌++◌, Bool, ltb, leb, keep, length,
}
use veritio.Prelude.Results.{Result, ok, throws, require, ◌>>=◌, ◌>>◌}
use veritio.Json.{field, Json, num, obj}
use veritio.Outbox.{OutboxError, is_positive_safe}

pub record Recommended : Type 0 where
  pub queued_bytes : ℕ
  pub rolling_send_bytes : ℕ

pub record Hard : Type 0 where
  pub batch_bytes : ℕ
  pub queued_bytes : ℕ
  pub rolling_send_bytes : ℕ
  pub rolling_requests : ℕ
  pub window_ms : ℕ
  pub automatic_replay_batches : ℕ

pub record DeliverySafetyPolicy : Type 0 where
  pub recommended : Recommended
  pub hard : Hard

abbrev pub default_delivery_safety_policy : DeliverySafetyPolicy
default_delivery_safety_policy = record {
  recommended = record { queued_bytes = 5242880; rolling_send_bytes = 1048576 };
  hard = record {
    batch_bytes = 1048576;
    queued_bytes = 67108864;
    rolling_send_bytes = 2097152;
    rolling_requests = 30;
    window_ms = 60000;
    automatic_replay_batches = 1;
  };
}

unfoldable pub require_object : Option Json → Result OutboxError Json
require_object (some (obj ms)) = ok (obj ms)
require_object _ = throws OutboxError.invalid_policy

unfoldable pub require_positive_integer : Option Json → Result OutboxError ℕ
require_positive_integer (some (num n)) = do
  require (is_positive_safe n) OutboxError.invalid_policy
  ok n
require_positive_integer _ = throws OutboxError.invalid_policy

unfoldable pub require_automatic_replay_batches : Option Json → Result OutboxError ℕ
require_automatic_replay_batches (some (num n)) = do
  require (leb n 1) OutboxError.invalid_policy
  ok n
require_automatic_replay_batches _ = throws OutboxError.invalid_policy

-- The limits in the order in which the object literal reads them.
unfoldable pub parse_recommended : Json → Result OutboxError Recommended
parse_recommended value = do
  queued_bytes ← require_positive_integer (field value "queuedBytes")
  rolling_send_bytes ← require_positive_integer (field value "rollingSendBytes")
  ok (record { queued_bytes = queued_bytes; rolling_send_bytes = rolling_send_bytes })

unfoldable pub parse_hard : Json → Result OutboxError Hard
parse_hard value = do
  batch_bytes ← require_positive_integer (field value "batchBytes")
  queued_bytes ← require_positive_integer (field value "queuedBytes")
  rolling_send_bytes ← require_positive_integer (field value "rollingSendBytes")
  rolling_requests ← require_positive_integer (field value "rollingRequests")
  window_ms ← require_positive_integer (field value "windowMs")
  automatic_replay_batches ← require_automatic_replay_batches (field value "automaticReplayBatches")
  ok (record {
    batch_bytes = batch_bytes;
    queued_bytes = queued_bytes;
    rolling_send_bytes = rolling_send_bytes;
    rolling_requests = rolling_requests;
    window_ms = window_ms;
    automatic_replay_batches = automatic_replay_batches;
  })

unfoldable pub parse_delivery_safety_policy : Option Json → Result OutboxError DeliverySafetyPolicy
parse_delivery_safety_policy none = ok default_delivery_safety_policy
parse_delivery_safety_policy (some input) = do
  root ← require_object (some input)
  recommended_value ← require_object (field root "recommended")
  hard_value ← require_object (field root "hard")
  recommended ← parse_recommended recommended_value
  hard ← parse_hard hard_value
  require (leb recommended.queued_bytes hard.queued_bytes) OutboxError.invalid_policy
  require (leb recommended.rolling_send_bytes hard.rolling_send_bytes) OutboxError.invalid_policy
  require (leb hard.batch_bytes hard.rolling_send_bytes) OutboxError.invalid_policy
  ok (record { recommended = recommended; hard = hard })

-- One delivery attempt.
pub record Send : Type 0 where
  pub at : ℕ
  pub bytes : ℕ

-- `now - send.at < windowMs`
abbrev pub is_recent : ℕ → ℕ → Send → Bool
is_recent window now s = ltb now (s.at + window)

-- The functions of `createRollingWindowLedger` on the list `sends`.
unfoldable pub prune : Hard → ℕ → List Send → List Send
prune hard now sends = keep (is_recent hard.window_ms now) sends

abbrev pub sent_bytes : List Send → ℕ
sent_bytes [] = 0
sent_bytes (s ∷ ss) = s.bytes + sent_bytes ss

unfoldable pub remaining_requests : Hard → ℕ → List Send → ℕ
unfolding prune
remaining_requests hard now sends = hard.rolling_requests - length (prune hard now sends)

unfoldable pub remaining_bytes : Hard → ℕ → List Send → ℕ
unfolding prune
remaining_bytes hard now sends = hard.rolling_send_bytes - sent_bytes (prune hard now sends)

unfoldable pub record_send : Hard → ℕ → ℕ → List Send → List Send
unfolding prune
record_send hard now bytes sends = prune hard now sends ++ record { at = now; bytes = bytes } ∷ []
