-- ===== src/Outbox/Policy.antt =====
-- What an accepted delivery policy guarantees (storage/src/delivery-safety.ts).
use veritio.Prelude.{ℕ, ◌≤◌, ◌≡◌, Option, none, some, leb, leb→le, arith}
use veritio.Prelude.Results.{ok, >>=-eq-ok, require-eq-ok, ok-injective}
use veritio.Json.{field, Json, null, bool, num, neg, str, arr, obj}
use veritio.Retention.Formats.{max_safe_integer}
use veritio.Outbox.{OutboxError, is_positive_safe}
use veritio.Outbox.Safety.{
  DeliverySafetyPolicy, Recommended, Hard, default_delivery_safety_policy, require_object,
  require_positive_integer, require_automatic_replay_batches, parse_recommended, parse_hard,
  parse_delivery_safety_policy,
}

-- A finite limit: not 0, and a number that a double holds exactly.
abbrev pub IsLimit : ℕ → Type 0
IsLimit n = (1 ≤ n) × (n ≤ max_safe_integer)

pub record IsFinite (p : DeliverySafetyPolicy) : Type 0 where
  pub warn_queued : IsLimit p.recommended.queued_bytes
  pub warn_rolling : IsLimit p.recommended.rolling_send_bytes
  pub batch : IsLimit p.hard.batch_bytes
  pub queued : IsLimit p.hard.queued_bytes
  pub rolling : IsLimit p.hard.rolling_send_bytes
  pub requests : IsLimit p.hard.rolling_requests
  pub window : IsLimit p.hard.window_ms
  pub replays : p.hard.automatic_replay_batches ≤ 1
  pub queued_order : p.recommended.queued_bytes ≤ p.hard.queued_bytes
  pub rolling_order : p.recommended.rolling_send_bytes ≤ p.hard.rolling_send_bytes
  pub batch_order : p.hard.batch_bytes ≤ p.hard.rolling_send_bytes

positive-eq-ok : (v : Option Json) (n : ℕ) → require_positive_integer v ≡ ok n → IsLimit n
unfolding require_positive_integer
positive-eq-ok none n h = cc
positive-eq-ok (some null) n h = cc
positive-eq-ok (some (bool b)) n h = cc
positive-eq-ok (some (neg m)) n h = cc
positive-eq-ok (some (str s)) n h = cc
positive-eq-ok (some (arr xs)) n h = cc
positive-eq-ok (some (obj ms)) n h = cc
positive-eq-ok (some (num m)) n h =
    let (test, done) = require-eq-ok (is_positive_safe m) OutboxError.invalid_policy _ h in
    let same : m ≡ n = ok-injective done in rw (← same) (ground arith, ground arith)

replays-eq-ok : (v : Option Json) (n : ℕ) → require_automatic_replay_batches v ≡ ok n → n ≤ 1
unfolding require_automatic_replay_batches
replays-eq-ok none n h = cc
replays-eq-ok (some null) n h = cc
replays-eq-ok (some (bool b)) n h = cc
replays-eq-ok (some (neg m)) n h = cc
replays-eq-ok (some (str s)) n h = cc
replays-eq-ok (some (arr xs)) n h = cc
replays-eq-ok (some (obj ms)) n h = cc
replays-eq-ok (some (num m)) n h =
    let (test, done) = require-eq-ok (leb m 1) OutboxError.invalid_policy _ h in
    let same : m ≡ n = ok-injective done in rw (← same) (leb→le m 1 test)

recommended-eq-ok :
    (v : Json) (r : Recommended)
    → parse_recommended v ≡ ok r
    → IsLimit r.queued_bytes × IsLimit r.rolling_send_bytes
unfolding parse_recommended
recommended-eq-ok v r h =
    let (q, hq, h1) = >>=-eq-ok (require_positive_integer (field v "queuedBytes")) _ h in
    let (s, hs, h2) = >>=-eq-ok (require_positive_integer (field v "rollingSendBytes")) _ h1 in
    rw (← ok-injective h2) (positive-eq-ok _ q hq, positive-eq-ok _ s hs)

hard-eq-ok :
    (v : Json) (r : Hard)
    → parse_hard v ≡ ok r
    → IsLimit r.batch_bytes
      × IsLimit r.queued_bytes
      × IsLimit r.rolling_send_bytes
      × IsLimit r.rolling_requests
      × IsLimit r.window_ms
      × (r.automatic_replay_batches ≤ 1)
unfolding parse_hard
hard-eq-ok v r h =
    let (b, hb, h1) = >>=-eq-ok (require_positive_integer (field v "batchBytes")) _ h in
    let (q, hq, h2) = >>=-eq-ok (require_positive_integer (field v "queuedBytes")) _ h1 in
    let (s, hs, h3) = >>=-eq-ok (require_positive_integer (field v "rollingSendBytes")) _ h2 in
    let (n, hn, h4) = >>=-eq-ok (require_positive_integer (field v "rollingRequests")) _ h3 in
    let (w, hw, h5) = >>=-eq-ok (require_positive_integer (field v "windowMs")) _ h4 in
    let (a, ha, h6) =
      >>=-eq-ok (require_automatic_replay_batches (field v "automaticReplayBatches")) _ h5 in
    rw (← ok-injective h6) (
      positive-eq-ok _ b hb,
      positive-eq-ok _ q hq,
      positive-eq-ok _ s hs,
      positive-eq-ok _ n hn,
      positive-eq-ok _ w hw,
      replays-eq-ok _ a ha,
    )

default-IsFinite : IsFinite default_delivery_safety_policy
default-IsFinite = record {
  warn_queued = omega arith;
  warn_rolling = omega arith;
  batch = omega arith;
  queued = omega arith;
  rolling = omega arith;
  requests = omega arith;
  window = omega arith;
  replays = omega arith;
  queued_order = omega arith;
  rolling_order = omega arith;
  batch_order = omega arith;
}

-- A policy that is accepted, of any untrusted value or of none, has positive exact limits, at most one
-- automatic replay, no recommended limit over its hard one, and no batch over the rolling limit.
pub parsed-IsFinite :
    (input : Option Json) (p : DeliverySafetyPolicy)
    → parse_delivery_safety_policy input ≡ ok p
    → IsFinite p
unfolding parse_delivery_safety_policy
parsed-IsFinite none p h = rw (← ok-injective h) default-IsFinite
parsed-IsFinite (some input) p h =
    let (root, hroot, h1) = >>=-eq-ok (require_object (some input)) _ h in
    let (rv, hrv, h2) = >>=-eq-ok (require_object (field root "recommended")) _ h1 in
    let (hv, hhv, h3) = >>=-eq-ok (require_object (field root "hard")) _ h2 in
    let (r, hr, h4) = >>=-eq-ok (parse_recommended rv) _ h3 in
    let (d, hd, h5) = >>=-eq-ok (parse_hard hv) _ h4 in
    let (q, h6) =
      require-eq-ok (leb r.queued_bytes d.queued_bytes) OutboxError.invalid_policy _ h5 in
    let (s, h7) =
      require-eq-ok (leb r.rolling_send_bytes d.rolling_send_bytes) OutboxError.invalid_policy _
        h6 in
    let (b, h8) =
      require-eq-ok (leb d.batch_bytes d.rolling_send_bytes) OutboxError.invalid_policy _ h7 in
    let (one, two) = recommended-eq-ok rv r hr in
    let limits = hard-eq-ok hv d hd in
    rw (← ok-injective h8) (record {
      warn_queued = one;
      warn_rolling = two;
      batch = limits.0;
      queued = limits.1;
      rolling = limits.2;
      requests = limits.3;
      window = limits.4;
      replays = limits.5;
      queued_order = leb→le _ _ q;
      rolling_order = leb→le _ _ s;
      batch_order = leb→le _ _ b;
    })
