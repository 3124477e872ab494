-- ===== src/Outbox/Steps.antt =====
-- The life of a row of the file queue (storage/src/outbox-file.ts): the steps that the operations take
-- with one row, and what each step keeps.
use veritio.Prelude.{
  ℕ, ◌≡◌, refl, String, Option, some, none, Bool, true, not, ◌===◌, and-eq-true, ◌&&◌,
  if◌then◌else◌, ◌||◌,
}
use veritio.Prelude.Text.{is_blank}
use veritio.Prelude.Results.{ok, >>=-eq-ok, ok-injective}
use veritio.Outbox.{
  OutboxStatus, Payload, validate_payload, absent, Entry, ClaimOptions, Failure,
  DeliveryDisposition, same_status, has_lease_metadata, is_circuit_id, assert_lease, clear_lease,
  resolve_disposition, resolve_circuit_id,
}
use veritio.Outbox.File.{is_candidate, is_due, lease}
use veritio.Outbox.Settle.{
  FailOptions, settle_dispatched, settle_failed, resumed, is_paused_row, place,
}
use veritio.Outbox.Rows.{IsStored}

-- One step of a row.
pub data RowStep (e : Entry) (e' : Entry) : Type 0 where
  keeps : e' ≡ e → RowStep e e'
  leases :
      (o : ClaimOptions) (now : ℕ) (blocked : String → Bool)
      → not (is_blank o.lease_id) ≡ true
      → is_candidate o now blocked e ≡ true
      → e' ≡ lease o now e
      → RowStep e e'
  dispatches :
      (lease_id : Option String) (at : ℕ) → settle_dispatched lease_id at e ≡ ok e' → RowStep e e'
  fails :
      (failure : Failure) (o : FailOptions) (fresh : String)
      → is_circuit_id (resolve_circuit_id o.circuit_id fresh) ≡ true
      → settle_failed failure o fresh e ≡ ok e'
      → RowStep e e'
  resumes :
      (tenant : String) (now : ℕ)
      → is_paused_row tenant e ≡ true
      → e' ≡ resumed now e
      → RowStep e e'

-- What a step never changes: the evidence and its identity.
pub record IsSameEvidence (e : Entry) (e' : Entry) : Type 0 where
  pub id : e'.id ≡ e.id
  pub tenant_id : e'.tenant_id ≡ e.tenant_id
  pub payload : ◌≡◌ {A = Payload} e'.payload e.payload
  pub created_at : e'.created_at ≡ e.created_at

place-IsSameEvidence :
    (o : FailOptions) (fresh : String) (d : DeliveryDisposition) (e : Entry)
    → IsSameEvidence e (clear_lease (place o fresh d e))
unfolding clear_lease
place-IsSameEvidence o fresh DeliveryDisposition.retry e = record {
  id = refl;
  tenant_id = refl;
  payload = refl;
  created_at = refl;
}
place-IsSameEvidence o fresh DeliveryDisposition.pause e = record {
  id = refl;
  tenant_id = refl;
  payload = refl;
  created_at = refl;
}
place-IsSameEvidence o fresh DeliveryDisposition.reject e = record {
  id = refl;
  tenant_id = refl;
  payload = refl;
  created_at = refl;
}

pub step-IsSameEvidence : (e e' : Entry) → RowStep e e' → IsSameEvidence e e'
unfolding lease resumed settle_dispatched settle_failed clear_lease
step-IsSameEvidence e e' (RowStep.keeps same) =
    rw same (record { id = refl; tenant_id = refl; payload = refl; created_at = refl })
step-IsSameEvidence e e' (RowStep.leases o now blocked named due same) =
    rw same (record { id = refl; tenant_id = refl; payload = refl; created_at = refl })
step-IsSameEvidence e e' (RowStep.resumes tenant now held same) =
    rw same (record { id = refl; tenant_id = refl; payload = refl; created_at = refl })
step-IsSameEvidence e e' (RowStep.dispatches lease_id at h) =
    let (u, owned, done) = >>=-eq-ok (assert_lease e lease_id) _ h in
    rw (← ok-injective done)
      (record { id = refl; tenant_id = refl; payload = refl; created_at = refl })
step-IsSameEvidence e e' (RowStep.fails failure o fresh named h) =
    let (u, owned, h1) = >>=-eq-ok (assert_lease e o.lease_id) _ h in
    let (d, chosen, done) = >>=-eq-ok (resolve_disposition o.retryable o.disposition) _ h1 in
    rw (← ok-injective done) (
      let s = place-IsSameEvidence o fresh d _ in
      record { id = s.id; tenant_id = s.tenant_id; payload = s.payload; created_at = s.created_at })

-- A row whose payload is valid is valid where a failure places it.
place-IsStored :
    (o : FailOptions) (fresh : String) (d : DeliveryDisposition) (e : Entry)
    → is_circuit_id (resolve_circuit_id o.circuit_id fresh) ≡ true
    → not (is_blank e.id) ≡ true
    → not (is_blank e.tenant_id) ≡ true
    → validate_payload e.payload (some e.tenant_id) ≡ ok tt
    → e.circuit_id ≡ none
    → IsStored (clear_lease (place o fresh d e))
unfolding clear_lease has_lease_metadata
place-IsStored o fresh DeliveryDisposition.retry e named i t p empty = record {
  id = i;
  tenant = t;
  payload = p;
  lease = refl;
  paused = refl;
  circuit = rw empty refl;
}
place-IsStored o fresh DeliveryDisposition.pause e named i t p empty = record {
  id = i;
  tenant = t;
  payload = p;
  lease = refl;
  paused = named;
  circuit = refl;
}
place-IsStored o fresh DeliveryDisposition.reject e named i t p empty = record {
  id = i;
  tenant = t;
  payload = p;
  lease = refl;
  paused = refl;
  circuit = rw empty refl;
}

candidate-absent :
    (o : ClaimOptions) (now : ℕ) (blocked : String → Bool) (e : Entry)
    → is_candidate o now blocked e ≡ true
    → IsStored e
    → absent e.circuit_id ≡ true
unfolding is_candidate
candidate-absent o now blocked e due s =
    let (ready, chosen) = and-eq-true (not (blocked e.tenant_id) && is_due now e) _ due in
    let (free, timely) = and-eq-true (not (blocked e.tenant_id)) (is_due now e) ready in
    go e.status (and-eq-true (same_status e.status OutboxStatus.pending || _) _ timely).0 s.circuit
  where
    go :
        (s : OutboxStatus)
        → (same_status s OutboxStatus.pending || same_status s OutboxStatus.leased) ≡ true
        → (same_status s OutboxStatus.paused || absent e.circuit_id) ≡ true
        → absent e.circuit_id ≡ true
    go OutboxStatus.pending h k = k
    go OutboxStatus.leased h k = k
    go OutboxStatus.paused h k = cc
    go OutboxStatus.dispatched h k = cc
    go OutboxStatus.dead h k = cc

paused-absent :
    (tenant : String) (e : Entry)
    → is_paused_row tenant e ≡ true
    → IsStored e
    → (absent e.lease_id && absent e.lease_expires_at) ≡ true
unfolding has_lease_metadata
paused-absent tenant e held s =
    go e.status _ (and-eq-true (e.tenant_id === tenant) _ held).1 s.lease
  where
    go :
        (s : OutboxStatus) (own : Bool)
        → same_status s OutboxStatus.paused ≡ true
        → (if same_status s OutboxStatus.leased
            then own
            else (absent e.lease_id && absent e.lease_expires_at))
          ≡ true
        → (absent e.lease_id && absent e.lease_expires_at) ≡ true
    go OutboxStatus.pending own h k = cc
    go OutboxStatus.leased own h k = cc
    go OutboxStatus.paused own h k = k
    go OutboxStatus.dispatched own h k = cc
    go OutboxStatus.dead own h k = cc

pub step-IsStored : (e e' : Entry) → RowStep e e' → IsStored e → IsStored e'
unfolding lease resumed settle_dispatched settle_failed clear_lease has_lease_metadata is_candidate
step-IsStored e e' (RowStep.keeps same) s = rw same s
step-IsStored e e' (RowStep.leases o now blocked named due same) s = rw same (record {
  id = s.id;
  tenant = s.tenant;
  payload = s.payload;
  lease = rw named refl;
  paused = refl;
  circuit = candidate-absent o now blocked e due s;
})
step-IsStored e e' (RowStep.resumes tenant now held same) s = rw same (record {
  id = s.id;
  tenant = s.tenant;
  payload = s.payload;
  lease = paused-absent tenant e held s;
  paused = refl;
  circuit = refl;
})
step-IsStored e e' (RowStep.dispatches lease_id at h) s =
    let (u, owned, done) = >>=-eq-ok (assert_lease e lease_id) _ h in
    rw (← ok-injective done) (record {
      id = s.id;
      tenant = s.tenant;
      payload = s.payload;
      lease = refl;
      paused = refl;
      circuit = refl;
    })
step-IsStored e e' (RowStep.fails failure o fresh named h) s =
    let (u, owned, h1) = >>=-eq-ok (assert_lease e o.lease_id) _ h in
    let (d, chosen, done) = >>=-eq-ok (resolve_disposition o.retryable o.disposition) _ h1 in
    rw (← ok-injective done) (place-IsStored o fresh d _ named s.id s.tenant s.payload refl)
