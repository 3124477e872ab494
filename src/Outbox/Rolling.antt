-- ===== src/Outbox/Rolling.antt =====
-- The rolling ledger of storage/src/outbox-dispatcher.ts against the log of all the sends: what it
-- forgets has left the window, and it keeps within the limits that its readers respect.
use mathlib.Core.List.{append-nil, append_assoc}
use veritio.Prelude.{ℕ, ◌-◌, ◌≤◌, ◌≡◌, refl, List, [], ◌∷◌, ◌++◌, keep, keep-append, length, arith}
use veritio.Outbox.Safety.{
  Hard, Send, is_recent, prune, sent_bytes, remaining_requests, remaining_bytes, record_send,
}

-- A use of the ledger: a reading of what remains, or a record of a send.
pub data Use : Type 0 where
  reads : (now : ℕ) → Use
  records : (now bytes : ℕ) → Use

abbrev pub time_of : Use → ℕ
time_of (Use.reads now) = now
time_of (Use.records now bytes) = now

module _ (hard : Hard) where
  -- The list `sends` after a series of uses.
  unfoldable pub use_ledger : List Send → List Use → List Send
  use_ledger sends [] = sends
  use_ledger sends (Use.reads now ∷ uses) = use_ledger (prune hard now sends) uses
  use_ledger sends (Use.records now bytes ∷ uses) =
      use_ledger (record_send hard now bytes sends) uses

-- Every send of a series of uses.
abbrev pub log_of : List Use → List Send
log_of [] = []
log_of (Use.reads now ∷ uses) = log_of uses
log_of (Use.records now bytes ∷ uses) = record { at = now; bytes = bytes } ∷ log_of uses

-- The clock of the uses does not go back, and reads `now` at the end.
abbrev pub AreOrdered : ℕ → List Use → ℕ → Type 0
AreOrdered clock [] now = clock ≤ now
AreOrdered clock (u ∷ uses) now = (clock ≤ time_of u) × AreOrdered (time_of u) uses now

AreOrdered-le : (clock : ℕ) (uses : List Use) (now : ℕ) → AreOrdered clock uses now → clock ≤ now
AreOrdered-le clock [] now h = h
AreOrdered-le clock (u ∷ uses) now h = omega (arith, h.0, AreOrdered-le (time_of u) uses now h.1)

-- What is recent later was recent before.
keep-prune :
    (hard : Hard) (t now : ℕ) (sends : List Send)
    → t ≤ now
    → keep (is_recent hard.window_ms now) (prune hard t sends)
      ≡ keep (is_recent hard.window_ms now) sends
unfolding prune
keep-prune hard t now [] later = refl
keep-prune hard t now (s ∷ ss) later = ground (arith, keep-prune hard t now ss later)

module _ (hard : Hard) where
  ledger-log :
      (sends : List Send) (uses : List Use) (clock now : ℕ)
      → AreOrdered clock uses now
      → prune hard now (use_ledger hard sends uses)
        ≡ keep (is_recent hard.window_ms now) (sends ++ log_of uses)
  unfolding use_ledger prune record_send
  ledger-log sends [] clock now h = rw (append-nil sends) refl
  ledger-log sends (Use.reads t ∷ uses) clock now h =
      let later = AreOrdered-le t uses now h.1 in
      rw
        (
          ledger-log (prune hard t sends) uses t now h.1,
          keep-append (is_recent hard.window_ms now) (prune hard t sends) (log_of uses),
          keep-prune hard t now sends later,
          keep-append (is_recent hard.window_ms now) sends (log_of uses),
        )
        refl
  ledger-log sends (Use.records t bytes ∷ uses) clock now h =
      let later = AreOrdered-le t uses now h.1 in
      let p = is_recent hard.window_ms now in
      let s : Send = record { at = t; bytes = bytes } in
      rw
        (
          ledger-log (record_send hard t bytes sends) uses t now h.1,
          append_assoc (prune hard t sends) (s ∷ []) (log_of uses),
          keep-append p (prune hard t sends) (s ∷ log_of uses),
          keep-prune hard t now sends later,
          keep-append p sends (s ∷ log_of uses),
        )
        refl

  -- Where the clock does not go back: however often the ledger was read and pruned on the way, what it
  -- answers at the end is what remains of the limits after exactly the sends of the whole log that are
  -- still in the window.
  pub ledger_exact :
      (uses : List Use) (now : ℕ)
      → AreOrdered 0 uses now
      → let recent = keep (is_recent hard.window_ms now) (log_of uses) in
        (remaining_requests hard now (use_ledger hard [] uses)
          ≡ hard.rolling_requests - length recent)
        × (remaining_bytes hard now (use_ledger hard [] uses)
            ≡ hard.rolling_send_bytes - sent_bytes recent)
  unfolding remaining_requests remaining_bytes
  ledger_exact uses now h = rw (ledger-log [] uses 0 now h) (refl, refl)
