-- ===== src/Outbox/Recorded.antt =====
-- A use of the rolling ledger (storage/src/outbox-dispatcher.ts) that counts the rows of a log.
use mathlib.Core.List.{map-append}
use veritio.Prelude.{ℕ, ◌≡◌, refl, ap, List, [], ◌∷◌, ◌++◌, map}
use veritio.Outbox.{Entry, body_bytes}
use veritio.Outbox.Safety.{Hard, Send, prune, record_send}
use veritio.Outbox.Rolling.{Use, use_ledger, log_of}

-- A ledger that was read and given one send for each row, of the bytes of its body, in order.
pub record IsRecorded (hard : Hard) (before after : List Send) (log : List Entry) : Type 0 where
  pub uses : List Use
  pub ledger : after ≡ use_ledger hard before uses
  pub matched : map (λ x. x.bytes) (log_of uses) ≡ map (λ e. body_bytes e.payload) log

log_of-reads : (uses : List Use) (now : ℕ) → log_of (uses ++ Use.reads now ∷ []) ≡ log_of uses
log_of-reads [] now = refl
log_of-reads (Use.reads t ∷ uses) now = log_of-reads uses now
log_of-reads (Use.records t bytes ∷ uses) now =
    ap (λ l. record { at = t; bytes = bytes } ∷ l) (log_of-reads uses now)

log_of-records :
    (uses : List Use) (now bytes : ℕ)
    → log_of (uses ++ Use.records now bytes ∷ [])
      ≡ log_of uses ++ record { at = now; bytes = bytes } ∷ []
log_of-records [] now bytes = refl
log_of-records (Use.reads t ∷ uses) now bytes = log_of-records uses now bytes
log_of-records (Use.records t n ∷ uses) now bytes =
    ap (λ l. record { at = t; bytes = n } ∷ l) (log_of-records uses now bytes)

module _ (hard : Hard) where
  use_ledger-append :
      (sends : List Send) (uses more : List Use)
      → use_ledger hard sends (uses ++ more) ≡ use_ledger hard (use_ledger hard sends uses) more
  unfolding use_ledger
  use_ledger-append sends [] more = refl
  use_ledger-append sends (Use.reads now ∷ uses) more =
      use_ledger-append (prune hard now sends) uses more
  use_ledger-append sends (Use.records now bytes ∷ uses) more =
      use_ledger-append (record_send hard now bytes sends) uses more

  pub read-IsRecorded :
      (before after : List Send) (log : List Entry) (now : ℕ)
      → IsRecorded hard before after log
      → IsRecorded hard before (prune hard now after) log
  unfolding use_ledger
  read-IsRecorded before after log now r = record {
    uses = r.uses ++ Use.reads now ∷ [];
    ledger = rw (use_ledger-append before r.uses (Use.reads now ∷ []), r.ledger) refl;
    matched = rw (log_of-reads r.uses now) r.matched;
  }

  pub record-IsRecorded :
      (before after : List Send) (log : List Entry) (now bytes : ℕ) (e : Entry)
      → body_bytes e.payload ≡ bytes
      → IsRecorded hard before after log
      → IsRecorded hard before (record_send hard now bytes after) (log ++ e ∷ [])
  unfolding use_ledger
  record-IsRecorded before after log now bytes e same r = record {
    uses = r.uses ++ Use.records now bytes ∷ [];
    ledger = rw (use_ledger-append before r.uses (Use.records now bytes ∷ []), r.ledger) refl;
    matched = rw (log_of-records r.uses now bytes, map-append, map-append, r.matched, same) refl;
  }
