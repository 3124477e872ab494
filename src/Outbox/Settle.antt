-- ===== src/Outbox/Settle.antt =====
-- The steps of the file queue that claim, settle and resume rows: `claimDispatchable`, `markDispatched`,
-- `markFailed` and `resumePaused` of storage/src/outbox-file.ts.
use veritio.Prelude.{
  ℕ, zero, suc, String, Option, none, some, List, [], ◌∷◌, Bool, true, false, not, ◌&&◌, ◌||◌,
  ◌===◌, same_or_null, any, ◌+◌, leb,
}
use veritio.Prelude.Results.{Result, ok, throws, require, ◌>>=◌, ◌>>◌}
use veritio.Outbox.{
  OutboxStatus, DeliveryDisposition, Entry, ClaimOptions, Failure, OutboxError, same_status,
  assert_non_empty, is_positive_safe, validate_claim_options, resolve_disposition, assert_lease,
  clear_lease, resolve_circuit_id, or_now, last_date,
}
use veritio.Outbox.Summary.{error_message}
use veritio.Outbox.File.{sort_entries, read_entries, is_paused_tenant, has_active_lease, claim_rows}

pub record FailOptions : Type 0 where
  pub lease_id : Option String
  pub now : ℕ
  pub available_at : Option ℕ
  pub retryable : Option Bool
  pub disposition : Option DeliveryDisposition
  pub circuit_id : Option String

pub record ResumeOptions : Type 0 where
  pub tenant_id : String
  pub expected_circuit_id : String
  pub limit : ℕ

abbrev pub blocked_tenants : ℕ → List Entry → String → Bool
blocked_tenants now entries tenant =
    is_paused_tenant entries tenant || has_active_lease now entries tenant

-- The row of an id, changed in place.
unfoldable pub update :
    (Entry → Result OutboxError Entry)
    → String
    → List Entry
    → Result OutboxError (Entry × List Entry)
update f id [] = throws OutboxError.entry_not_found
update f id (e ∷ es) = elim (e.id === id) [
  | true ↦ do e' ← f e; ok (e', e' ∷ es)
  | false ↦ do (e', es') ← update f id es; ok (e', e ∷ es')
]

unfoldable pub settle_dispatched : Option String → ℕ → Entry → Result OutboxError Entry
settle_dispatched lease_id at e = do
  assert_lease e lease_id
  ok (
      clear_lease (record e {
        status = OutboxStatus.dispatched;
        dispatched_at = some at;
        updated_at = at;
        last_error = none;
        circuit_id = none;
      }))

abbrev pub place : FailOptions → (fresh : String) → DeliveryDisposition → Entry → Entry
place o fresh DeliveryDisposition.reject e = record e { status = OutboxStatus.dead }
place o fresh DeliveryDisposition.pause e = record e {
  status = OutboxStatus.paused;
  circuit_id = some (resolve_circuit_id o.circuit_id fresh);
}
place o fresh DeliveryDisposition.retry e = record e {
  status = OutboxStatus.pending;
  available_at = or_now o.now o.available_at;
}

unfoldable pub settle_failed :
    Failure → FailOptions → (fresh : String) → Entry → Result OutboxError Entry
settle_failed failure o fresh e = do
  assert_lease e o.lease_id
  disposition ← resolve_disposition o.retryable o.disposition
  ok (
      clear_lease (
        place o fresh disposition (record e {
          attempts = suc e.attempts;
          updated_at = o.now;
          last_error = some (error_message failure);
          circuit_id = none;
        })))

unfoldable pub resumed : ℕ → Entry → Entry
resumed now e = record e {
  status = OutboxStatus.pending;
  available_at = now;
  updated_at = now;
  circuit_id = none;
}

abbrev pub is_paused_row : String → Entry → Bool
is_paused_row tenant e = e.tenant_id === tenant && same_status e.status OutboxStatus.paused

-- The first `limit` paused rows of the tenant, and their number.
unfoldable pub resume_rows : String → ℕ → (limit : ℕ) → List Entry → List Entry × ℕ
resume_rows tenant now limit [] = ([], 0)
resume_rows tenant now zero (e ∷ es) = (e ∷ es, 0)
resume_rows tenant now (suc limit) (e ∷ es) = elim (is_paused_row tenant e) [
  | true ↦ let rest = resume_rows tenant now limit es in (resumed now e ∷ rest.0, suc rest.1)
  | false ↦ let rest = resume_rows tenant now (suc limit) es in (e ∷ rest.0, rest.1)
]

unfoldable pub has_other_circuit : ResumeOptions → List Entry → Bool
has_other_circuit o entries =
    any
      (λ e.
        is_paused_row o.tenant_id e && not (same_or_null e.circuit_id (some o.expected_circuit_id)))
      entries

-- Whether the date at which the leases of a pass end has an ISO text; a pass without a claim makes
-- none, and one with a claim has not written when `toISOString` throws.
abbrev pub is_dated : ClaimOptions → ℕ → List Entry → Bool
is_dated o now [] = true
is_dated o now (c ∷ cs) = leb (now + o.lease_ms) last_date

module _ (id_le : String → String → Bool) where
  -- A pass that claims nothing writes nothing.
  abbrev pub written : List Entry → List Entry × List Entry → List Entry × List Entry
  written file (rows, []) = ([], file)
  written file (rows, c ∷ cs) = (c ∷ cs, sort_entries id_le rows)

  unfoldable pub claim_dispatchable :
      List Entry → ClaimOptions → (now : ℕ) → Result OutboxError (List Entry × List Entry)
  claim_dispatchable file o now = do
    validate_claim_options o
    entries ← read_entries id_le file
    let pass : List Entry × List Entry =
        claim_rows o now (blocked_tenants now entries) [] 0 0 entries
    require (is_dated o now pass.1) OutboxError.invalid_time
    ok (written file pass)

  -- `markDispatched` and `markFailed` after the settlement of the row.
  unfoldable pub settle :
      (Entry → Result OutboxError Entry)
      → List Entry
      → (id : String) → Result OutboxError (Entry × List Entry)
  settle f file id = do
    assert_non_empty id OutboxError.id_required
    entries ← read_entries id_le file
    (e, rows) ← update f id entries
    ok (e, sort_entries id_le rows)

  unfoldable pub mark_dispatched :
      List Entry
      → (id : String) → (lease_id : Option String) → (at : ℕ)
      → Result OutboxError (Entry × List Entry)
  mark_dispatched file id lease_id at = settle (settle_dispatched lease_id at) file id

  unfoldable pub mark_failed :
      List Entry
      → (id : String) → Failure
      → FailOptions
      → (fresh : String) → Result OutboxError (Entry × List Entry)
  mark_failed file id failure o fresh = settle (settle_failed failure o fresh) file id

  abbrev pub rewritten : List Entry → List Entry × ℕ → ℕ × List Entry
  rewritten file (rows, zero) = (0, file)
  rewritten file (rows, suc n) = (suc n, sort_entries id_le rows)

  unfoldable pub resume_paused :
      List Entry → ResumeOptions → (now : ℕ) → Result OutboxError (ℕ × List Entry)
  resume_paused file o now = do
    assert_non_empty o.tenant_id OutboxError.tenant_id_required
    assert_non_empty o.expected_circuit_id OutboxError.circuit_required
    require (is_positive_safe o.limit) OutboxError.not_positive
    entries ← read_entries id_le file
    require (not (has_other_circuit o entries)) OutboxError.circuit_mismatch
    ok (rewritten file (resume_rows o.tenant_id now o.limit entries))
