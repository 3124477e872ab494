-- ===== src/Outbox/Dispatch.antt =====
-- The dispatcher of storage/src/outbox-dispatcher.ts over a queue adapter and an evidence target. The
-- adapter (an interface of storage/src/outbox-types.ts, which the file queue implements) and the target are
-- parameters; the clock and the random UUIDs of a pass are functions of the number of the round.
use Prim.Native.String.{◌++◌ as text_append}
use veritio.Prelude.{
  ℕ, String, Option, none, some, List, [], ◌∷◌, Bool, true, false, not, ◌||◌, ltb, leb, ◌==◌,
  if◌then◌else◌,
}
use veritio.Prelude.Text.{Text}
use veritio.Prelude.Results.{Result, ok, throws, require, ◌>>◌}
use veritio.Json.{Json, Items, nil, item, decimal}
use veritio.Outbox.{
  Payload, Entry, ClaimOptions, Failure, OutboxError, assert_non_empty, validate_payload,
  validate_list_options, is_positive_safe,
}
use veritio.Outbox.Settle.{FailOptions}
use veritio.Outbox.Safety.{DeliverySafetyPolicy}

pub data PermitKind : Type 0 where
  automatic canary operator : PermitKind

pub record DispatchPermit : Type 0 where
  pub kind : PermitKind
  pub approval_id : Option String
  pub max_entries : ℕ
  pub max_bytes : ℕ
  pub max_elapsed_ms : ℕ
  pub lease_ms : ℕ

pub record DispatchOptions : Type 0 where
  pub tenant_id : String
  pub now : Option ℕ
  pub limit : Option ℕ
  pub permit : DispatchPermit

pub record DispatchResult : Type 0 where
  pub dispatched : ℕ
  pub retried : ℕ
  pub paused : ℕ
  pub rejected : ℕ
  pub bytes : ℕ

abbrev pub empty_dispatch_result : DispatchResult
empty_dispatch_result = record { dispatched = 0; retried = 0; paused = 0; rejected = 0; bytes = 0 }

abbrev is_operator : PermitKind → Bool
is_operator PermitKind.operator = true
is_operator _ = false

abbrev is_automatic : PermitKind → Bool
is_automatic PermitKind.automatic = true
is_automatic _ = false

abbrev assert_filled : Option String → Result OutboxError (Unit {0})
assert_filled none = throws OutboxError.invalid_permit
assert_filled (some s) = assert_non_empty s OutboxError.invalid_permit

unfoldable pub validate_dispatch_options :
    DispatchOptions → DeliverySafetyPolicy → Result OutboxError (Unit {0})
validate_dispatch_options o policy = do
  assert_non_empty o.tenant_id OutboxError.tenant_id_required
  require (is_positive_safe o.permit.max_entries) OutboxError.invalid_permit
  require (is_positive_safe o.permit.max_bytes) OutboxError.invalid_permit
  require (is_positive_safe o.permit.max_elapsed_ms) OutboxError.invalid_permit
  require (is_positive_safe o.permit.lease_ms) OutboxError.invalid_permit
  require (ltb o.permit.max_elapsed_ms o.permit.lease_ms) OutboxError.invalid_permit
  if is_operator o.permit.kind then assert_filled o.permit.approval_id else ok tt
  require (leb o.permit.max_bytes policy.hard.rolling_send_bytes) OutboxError.permit_over_policy
  require (leb o.permit.max_entries policy.hard.rolling_requests) OutboxError.permit_over_policy
  require (leb o.permit.max_elapsed_ms policy.hard.window_ms) OutboxError.permit_over_policy
  require
      (not (is_automatic o.permit.kind)
        || leb o.permit.max_entries policy.hard.automatic_replay_batches)
      OutboxError.permit_over_policy
  validate_list_options (record { tenant_id = some o.tenant_id; limit = o.limit })

digit_text : ℕ → String
digit_text c =
    if c == b'0'
    then "0"
    else if c == b'1'
    then "1"
    else if c == b'2'
    then "2"
    else if c == b'3'
    then "3"
    else if c == b'4'
    then "4"
    else if c == b'5'
    then "5"
    else if c == b'6'
    then "6"
    else if c == b'7'
    then "7"
    else if c == b'8'
    then "8"
    else "9"

digits_text : Text → String
unfolding digit_text
digits_text [] = ""
digits_text (c ∷ cs) = text_append (digit_text c) (digits_text cs)

abbrev kind_text : PermitKind → String
kind_text PermitKind.automatic = "automatic"
kind_text PermitKind.canary = "canary"
kind_text PermitKind.operator = "operator"

abbrev or_kind : Option String → PermitKind → String
or_kind none kind = kind_text kind
or_kind (some approval_id) kind = approval_id

unfoldable pub dispatch_lease_id : DispatchPermit → (index : ℕ) → (uuid : String) → String
unfolding digits_text
dispatch_lease_id permit index uuid =
    text_append (or_kind permit.approval_id permit.kind)
      (text_append ":" (text_append (digits_text (decimal index)) (text_append ":" uuid)))

-- The operations of a queue that the dispatcher calls. `fresh` is a random UUID.
pub record OutboxAdapter : Type 1 where
  pub Queue : Type 0
  pub claim_dispatchable :
      Queue → ClaimOptions → (now : ℕ) → Result OutboxError (List Entry × Queue)
  pub mark_dispatched :
      Queue
      → (id : String) → (lease_id : Option String) → (at : ℕ) → Result OutboxError (Entry × Queue)
  pub mark_failed :
      Queue
      → (id : String) → Failure
      → FailOptions
      → (fresh : String) → Result OutboxError (Entry × Queue)

-- The host's target: each call may change its state, and may throw.
pub record EvidenceTarget : Type 1 where
  pub State : Type 0
  pub record_event : State → Json → State × Option Failure
  pub record_edge : State → Json → State × Option Failure
  -- What an error of this library is to the code that catches it.
  pub caught : OutboxError → Failure

-- One of the two loops of `dispatchOutboxEntry`.
unfoldable pub deliver_items :
    {S : Type 0} → (S → Json → S × Option Failure) → S → Items → S × Option Failure
deliver_items send s nil = (s, none)
deliver_items send s (item x xs) =
    let (s', thrown) = send s x in
    elim thrown [ none ↦ deliver_items send s' xs | some failure ↦ (s', some failure) ]

module _ (target : EvidenceTarget) where
  abbrev deliver_edges : Items → target.State × Option Failure → target.State × Option Failure
  deliver_edges edges (s, none) = deliver_items target.record_edge s edges
  deliver_edges edges (s, some failure) = (s, some failure)

  unfoldable pub dispatch_outbox_entry : target.State → Payload → target.State × Option Failure
  dispatch_outbox_entry s p = elim (validate_payload p none) [
    | throws e ↦ (s, some (target.caught e))
    | ok u ↦ deliver_edges p.edges (deliver_items target.record_event s p.records)
  ]

-- The readings of the clock in one round of the loop.
pub record Ticks : Type 0 where
  pub elapsed : ℕ
  pub requests : ℕ
  pub bytes : ℕ
  pub claims : ℕ
  pub records : ℕ
  pub settles : ℕ
  pub fails : ℕ
