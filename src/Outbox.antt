-- ===== src/Outbox.antt =====
-- The durable delivery queue of storage/src: the rows and helpers of storage/src/outbox-types.ts and
-- storage/src/outbox-shared.ts. A timestamp is the milliseconds of a normalized date from 1970 on, and
-- `iso_le` compares two as their ISO texts. A JavaScript string whose length is read is its UTF-16 units.
pub mod Safety
pub mod Rolling
pub mod Policy
pub mod Summary
pub mod File
pub mod Rows
pub mod Bytes
pub mod Settle
pub mod Steps
pub mod Calls
pub mod Evidence
pub mod Enqueue
pub mod Queue
pub mod Leases
pub mod Loop
pub mod Exclusive
pub mod Ready
pub mod Claiming
pub mod Claimed
pub mod Timed
pub mod Lookup
pub mod Update
pub mod Settled
pub mod Backlog
pub mod Survival
pub mod Dispatch
pub mod Pass
pub mod Accounting
pub mod Rounds
pub mod Bounded
pub mod Recorded
pub mod Ledgered
pub mod Reaches
pub mod Local
pub mod Messages
pub mod Idempotent
use Prim.Native.String.{◌++◌ as text_append}
use veritio.Prelude.{
  ℕ, suc, ◌+◌, ◌-◌, String, Option, none, some, List, [], ◌∷◌, ◌++◌, Bool, true, false, not, ◌&&◌,
  ◌||◌, ltb, leb, ◌==◌, ◌===◌, same_or_null, if◌then◌else◌, every, length, find, take,
}
use veritio.Prelude.Text.{Text, codes, same_text, is_blank, is_white_space, is_alphanumeric}
use veritio.Prelude.Results.{Result, ok, throws, require, ◌>>=◌, ◌>>◌}
use veritio.Json.{
  Json, Items, Members, null, str, arr, obj, nil, item, end, member, stringify, canonical_json,
  field,
}
use veritio.Retention.Formats.{max_safe_integer}

pub data OutboxStatus : Type 0 where
  pending leased paused dispatched dead : OutboxStatus

pub data DeliveryDisposition : Type 0 where
  retry pause reject : DeliveryDisposition

-- The records and edges are untrusted JSON values.
pub record Payload : Type 0 where
  pub schema_version : String
  pub mutation_binding : String
  pub expected_parent_revision_ref : Option Json
  pub records : Items
  pub edges : Items

pub record Entry : Type 0 where
  pub id : String
  pub tenant_id : String
  pub payload : Payload
  pub available_at : ℕ
  pub status : OutboxStatus
  pub attempts : ℕ
  pub created_at : ℕ
  pub updated_at : ℕ
  pub dispatched_at : Option ℕ
  pub last_error : Option (List ℕ)
  pub lease_id : Option String
  pub lease_expires_at : Option ℕ
  pub circuit_id : Option String

pub record EnqueueInput : Type 0 where
  pub id : String
  pub tenant_id : String
  pub payload : Payload
  pub available_at : Option ℕ

pub record OutboxListOptions : Type 0 where
  pub tenant_id : Option String
  pub limit : Option ℕ

pub record ClaimOptions : Type 0 where
  pub tenant_id : Option String
  pub lease_id : String
  pub lease_ms : ℕ
  pub limit : ℕ
  pub max_payload_bytes : ℕ

-- The last millisecond of the year 9999. The ISO text of a later date starts with `+`, so it sorts
-- before the texts of the dates up to this one, which start with a digit.
abbrev pub last_four_digit : ℕ
last_four_digit = 253402300799999

-- The last millisecond of a JavaScript date; `toISOString` throws after it.
abbrev pub last_date : ℕ
last_date = 8640000000000000

unfoldable pub is_extended : ℕ → Bool
is_extended at = ltb last_four_digit at

-- `a <= b` of the ISO texts of two dates.
unfoldable pub iso_le : ℕ → ℕ → Bool
iso_le a b =
    if is_extended a
    then (if is_extended b then leb a b else true)
    else if is_extended b
    then false
    else leb a b

-- A thrown value: an `Error` with its name and message, or anything else.
pub data Failure : Type 0 where
  error : (name message : List ℕ) → Failure
  other : Failure

-- One constructor for each error that the queue throws.
pub data OutboxError : Type 0 where
  id_required tenant_id_required lease_id_required scope_required : OutboxError
  unsupported_payload_schema unsupported_mutation_binding payload_tenant_mismatch : OutboxError
  invalid_lease_metadata invalid_paused_circuit invalid_circuit : OutboxError
  not_positive disposition_disagrees lease_does_not_match lease_not_active : OutboxError
  entry_not_found idempotency_conflict queue_full circuit_required circuit_mismatch : OutboxError
  invalid_permit permit_over_policy delivery_failed callback_failed invalid_policy invalid_time :
      OutboxError

abbrev pub same_status : OutboxStatus → OutboxStatus → Bool
same_status pending pending = true
same_status leased leased = true
same_status paused paused = true
same_status dispatched dispatched = true
same_status dead dead = true
same_status a b = false

abbrev pub absent {ℓ} : {A : Type ℓ} → Option A → Bool
absent none = true
absent (some a) = false

abbrev pub assert_non_empty : String → OutboxError → Result OutboxError (Unit {0})
assert_non_empty value e = require (not (is_blank value)) e

-- `value.scope?.tenantId`, where it is a string.
unfoldable pub payload_tenant : Json → Option String
unfolding field
payload_tenant value = elim (field value "scope") [
  | none ↦ none
  | some scope ↦ elim (field scope "tenantId") [ some (str s) ↦ some s | _ ↦ none ]
]

-- `assertPayloadTenant`
unfoldable pub assert_payload_tenant : Option String → Option String → Result OutboxError String
assert_payload_tenant none expected = throws scope_required
assert_payload_tenant (some actual) expected = do
  assert_non_empty actual scope_required
  require (elim expected [ none ↦ true | some e ↦ actual === e ]) payload_tenant_mismatch
  ok actual

-- One of the two loops of `validatePayload`.
unfoldable pub assert_tenants : Items → Option String → Result OutboxError (Option String)
assert_tenants nil expected = ok expected
assert_tenants (item x xs) expected = do
  tenant ← assert_payload_tenant (payload_tenant x) expected
  assert_tenants xs (some tenant)

unfoldable pub is_mutation_binding : String → Bool
is_mutation_binding s =
    s === "same_transaction" || s === "not_transaction_bound" || s === "best_effort"

unfoldable pub validate_payload : Payload → Option String → Result OutboxError (Unit {0})
validate_payload p expected = do
  require (p.schema_version === "2026-06-23") unsupported_payload_schema
  require (is_mutation_binding p.mutation_binding) unsupported_mutation_binding
  tenant ← assert_tenants p.records expected
  assert_tenants p.edges tenant
  ok tt

-- The bytes of a text in UTF-8.
utf8_length : Text → ℕ
utf8_length [] = 0
utf8_length (c ∷ cs) =
    (if ltb c 0x80 then 1 else if ltb c 0x800 then 2 else if ltb c 0x10000 then 3 else 4)
    + utf8_length cs

-- The bytes of the request body.
unfoldable pub body_bytes : Payload → ℕ
unfolding utf8_length
body_bytes p =
    utf8_length
      (stringify (obj (member "events" (arr p.records) (member "edges" (arr p.edges) end))))

-- The rows of a queue were validated when they were read or made, so there it is `body_bytes`.
unfoldable pub outbox_payload_byte_length : Payload → Result OutboxError ℕ
outbox_payload_byte_length p = do validate_payload p none; ok (body_bytes p)

optional_json : Option Json → Members → Members
optional_json none rest = rest
optional_json (some j) rest = member "expectedParentRevisionRef" j rest

payload_json : Payload → Json
unfolding optional_json
payload_json p = obj (
    member "schemaVersion" (str p.schema_version) (
      member "mutationBinding" (str p.mutation_binding) (
        optional_json p.expected_parent_revision_ref
          (member "records" (arr p.records) (member "edges" (arr p.edges) end)))))

-- Whether an enqueue repeats a stored row.
unfoldable pub same_enqueue_input : Entry → Entry → Bool
unfolding payload_json
same_enqueue_input a b =
    a.tenant_id === b.tenant_id
    && same_text (canonical_json (payload_json a.payload)) (canonical_json (payload_json b.payload))

abbrev pub or_now : ℕ → Option ℕ → ℕ
or_now now none = now
or_now now (some at) = at

unfoldable pub create_pending_entry : EnqueueInput → ℕ → Result OutboxError Entry
create_pending_entry input now = do
  assert_non_empty input.tenant_id tenant_id_required
  assert_non_empty input.id id_required
  validate_payload input.payload (some input.tenant_id)
  ok (record {
    id = input.id;
    tenant_id = input.tenant_id;
    payload = input.payload;
    available_at = or_now now input.available_at;
    status = pending;
    attempts = 0;
    created_at = now;
    updated_at = now;
    dispatched_at = none;
    last_error = none;
    lease_id = none;
    lease_expires_at = none;
    circuit_id = none;
  })

is_circuit_character : ℕ → Bool
unfolding is_alphanumeric
is_circuit_character c = is_alphanumeric c || c == b'_' || c == b'-'

-- /^[A-Za-z0-9_-]{1,128}$/
unfoldable pub is_circuit_id : String → Bool
unfolding is_circuit_character
is_circuit_id s =
    let cs = codes s in leb 1 (length cs) && leb (length cs) 128 && every is_circuit_character cs

abbrev pub has_circuit_id : Option String → Bool
has_circuit_id none = false
has_circuit_id (some s) = is_circuit_id s

abbrev pub filled : Option String → Bool
filled none = false
filled (some s) = not (is_blank s)

-- The lease is there exactly where the row is leased.
unfoldable pub has_lease_metadata : Entry → Bool
has_lease_metadata e =
    if same_status e.status leased
    then filled e.lease_id && not (absent e.lease_expires_at)
    else absent e.lease_id && absent e.lease_expires_at

unfoldable pub validate_stored_entry : Entry → Result OutboxError (Unit {0})
validate_stored_entry e = do
  assert_non_empty e.id id_required
  assert_non_empty e.tenant_id tenant_id_required
  validate_payload e.payload (some e.tenant_id)
  require (has_lease_metadata e) invalid_lease_metadata
  require (not (same_status e.status paused) || has_circuit_id e.circuit_id) invalid_paused_circuit
  require (same_status e.status paused || absent e.circuit_id) invalid_circuit

unfoldable pub validate_list_options : OutboxListOptions → Result OutboxError (Unit {0})
validate_list_options o = elim o.tenant_id [
  | none ↦ ok tt
  | some tenant ↦ assert_non_empty tenant tenant_id_required
]

abbrev pub is_positive_safe : ℕ → Bool
is_positive_safe n = ltb 0 n && leb n max_safe_integer

unfoldable pub validate_claim_options : ClaimOptions → Result OutboxError (Unit {0})
validate_claim_options o = do
  validate_list_options (record { tenant_id = o.tenant_id; limit = some o.limit })
  assert_non_empty o.lease_id lease_id_required
  require (is_positive_safe o.lease_ms) not_positive
  require (is_positive_safe o.limit) not_positive
  require (is_positive_safe o.max_payload_bytes) not_positive

-- The row of an id.
abbrev pub find_entry : List Entry → String → Option Entry
find_entry entries id = find (λ e. e.id === id) entries

abbrev legacy_disposition : Option Bool → Option DeliveryDisposition
legacy_disposition none = none
legacy_disposition (some true) = some retry
legacy_disposition (some false) = some reject

abbrev same_disposition : DeliveryDisposition → DeliveryDisposition → Bool
same_disposition retry retry = true
same_disposition pause pause = true
same_disposition reject reject = true
same_disposition a b = false

abbrev pub settle_disposition :
    Option DeliveryDisposition → Option DeliveryDisposition → Result OutboxError DeliveryDisposition
settle_disposition none none = ok retry
settle_disposition (some l) none = ok l
settle_disposition none (some d) = ok d
settle_disposition (some l) (some d) = do require (same_disposition l d) disposition_disagrees; ok d

unfoldable pub resolve_disposition :
    Option Bool → Option DeliveryDisposition → Result OutboxError DeliveryDisposition
resolve_disposition retryable disposition =
    settle_disposition (legacy_disposition retryable) disposition

unfoldable pub assert_lease : Entry → Option String → Result OutboxError (Unit {0})
assert_lease e lease =
    if same_status e.status leased
    then require (not (absent lease) && same_or_null lease e.lease_id) lease_does_not_match
    else require (absent lease) lease_not_active

unfoldable pub clear_lease : Entry → Entry
clear_lease e = record e { lease_id = none; lease_expires_at = none }

-- `fresh` is the random UUID that a pause without a circuit of its own gets.
unfoldable pub resolve_circuit_id : Option String → String → String
resolve_circuit_id none fresh = text_append "local_" fresh
resolve_circuit_id (some s) fresh = if is_circuit_id s then s else text_append "local_" fresh
