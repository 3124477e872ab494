-- ===== src/Outbox/Bytes.antt =====
-- `outboxPayloadByteLength` (storage/src/outbox-shared.ts) of a stored row: the payload was validated for the
-- row's tenant, so it is valid by itself, and the call returns the bytes of its body.
use veritio.Prelude.{
  ◌≡◌, refl, sym, ap, ◌∙◌, String, Option, none, some, not, ◌===◌, ===_iff, inl, inr, ◌⊎◌,
}
use veritio.Prelude.Text.{is_blank}
use veritio.Prelude.Results.{ok, >>=-eq-ok, require-eq-ok, ok-injective}
use veritio.Json.{Items, nil, item}
use veritio.Outbox.{
  Entry, Payload, OutboxError, assert_payload_tenant, payload_tenant, assert_tenants,
  is_mutation_binding, validate_payload, body_bytes, outbox_payload_byte_length,
}
use veritio.Outbox.Rows.{IsStored}

expected-tenant :
    (actual : Option String) (t u : String)
    → assert_payload_tenant actual (some t) ≡ ok u
    → (u ≡ t) × (assert_payload_tenant actual none ≡ ok t)
unfolding assert_payload_tenant
expected-tenant none t u h = cc
expected-tenant (some a) t u h =
    let (filled, h1) = require-eq-ok (not (is_blank a)) OutboxError.scope_required _ h in
    let (same, done) = require-eq-ok (a === t) OutboxError.payload_tenant_mismatch _ h1 in
    let here : a ≡ t = (===_iff a t).0 same in
    (sym (ok-injective done) ∙ here, rw (filled) (ap ok here))

expected-tenants :
    (xs : Items) (t : String) (u : Option String)
    → assert_tenants xs (some t) ≡ ok u
    → (u ≡ some t) × ((assert_tenants xs none ≡ ok none) ⊎ (assert_tenants xs none ≡ ok (some t)))
unfolding assert_tenants
expected-tenants nil t u h = (sym (ok-injective h), inl refl)
expected-tenants (item x xs) t u h =
    let (a, first, rest) = >>=-eq-ok (assert_payload_tenant (payload_tenant x) (some t)) _ h in
    let (same, alone) = expected-tenant (payload_tenant x) t a first in
    let rest' : assert_tenants xs (some t) ≡ ok u = rw (← same) rest in
    let (mine, later) = expected-tenants xs t u rest' in
    (mine, inr (rw (alone) (rest' ∙ ap ok mine)))

validate_payload-alone :
    (p : Payload) (t : String)
    → validate_payload p (some t) ≡ ok tt
    → validate_payload p none ≡ ok tt
unfolding validate_payload
validate_payload-alone p t h =
    let (schema, h1) =
      require-eq-ok (p.schema_version === "2026-06-23") OutboxError.unsupported_payload_schema _
        h in
    let (binding, h2) =
      require-eq-ok (is_mutation_binding p.mutation_binding)
        OutboxError.unsupported_mutation_binding _ h1 in
    let (u, records, h3) = >>=-eq-ok (assert_tenants p.records (some t)) _ h2 in
    let (v, edges, done) = >>=-eq-ok (assert_tenants p.edges u) _ h3 in
    let (same, alone) = expected-tenants p.records t u records in
    let edges' : assert_tenants p.edges (some t) ≡ ok v = rw (← same) edges in
    let (mine, apart) = expected-tenants p.edges t v edges' in
    elim alone [
      | inr known ↦ rw (schema, binding, known, edges') refl
      | inl unknown ↦ elim apart [
        | inl empty ↦ rw (schema, binding, unknown, empty) refl
        | inr found ↦ rw (schema, binding, unknown, found) refl
      ]
    ]

pub byte_length-stored :
    (e : Entry) → IsStored e → outbox_payload_byte_length e.payload ≡ ok (body_bytes e.payload)
unfolding outbox_payload_byte_length
byte_length-stored e s = rw (validate_payload-alone e.payload e.tenant_id s.payload) refl
