-- ===== src/Chain/Verdict.antt =====
-- The verifier accepts exactly the lists in which every tenant's records form a chain from genesis.
use veritio.Prelude.{
  ℕ, ◌+◌, ◌≡◌, ◌↔◌, refl, subst, String, Option, none, some, List, [], ◌∷◌, arith, ◌===◌, ===_iff,
  ===_refl, ==_iff, ==→≡, same_or_null, same_or_null_iff, if◌then◌else◌, Bool-cases, inl, inr, All,
  map,
}
use veritio.Prelude.Text.{Text}
use veritio.Prelude.Dict.{Dict, get, set, get-set}
use veritio.Prelude.Results.{ok, require-eq-ok, >>=-eq-ok, Result-cases}
use veritio.Protocol.{AuditRecord, EvidenceEdgeRecord, truthy, sha256_algorithm, json_v1}
use veritio.Chain.{
  Envelope, Tip, genesis, tip_of, tip_after, present, verified, failed, verify_envelope,
  verify_from, verify_envelopes, audit_envelope, edge_envelope, verify_audit_records,
  verify_evidence_edge_records,
}
use veritio.Chain.Linked.{IsSupported, Extends, Linked, is_of, of_tenant}

-- A record that meets every test of the loop's body.
pub record Passes (states : Dict Tip) (e : Envelope) (tenant : String) : Type 0 where
  pub scoped : truthy e.tenant_id ≡ some tenant
  pub algorithm : e.hash_algorithm ≡ sha256_algorithm
  pub canonical : e.canonicalization ≡ json_v1
  pub extends : Extends (tip_of states tenant) e

present-eq-ok : (o : Option String) (tenant : String) → present o ≡ ok tenant → o ≡ some tenant
present-eq-ok none tenant h = cc
present-eq-ok (some t) tenant h = cc

pub verify_envelope-Passes :
    (states : Dict Tip) (e : Envelope) (next : Dict Tip)
    → verify_envelope states e ≡ ok next
    → (tenant : String) × Passes states e tenant × (next ≡ set states tenant (tip_after e))
unfolding verify_envelope
verify_envelope-Passes states e next h =
    let (tenant, scoped, h1) = >>=-eq-ok (present (truthy e.tenant_id)) _ h in
    let (algorithm, h2) = require-eq-ok _ _ _ h1 in
    let (canonical, h3) = require-eq-ok _ _ _ h2 in
    let (number, h4) = require-eq-ok _ _ _ h3 in
    let (link, h5) = require-eq-ok _ _ _ h4 in
    let (sum, h6) = require-eq-ok _ _ _ h5 in
    (
      tenant,
      record {
        scoped = present-eq-ok _ tenant scoped;
        algorithm = (===_iff _ _).0 algorithm;
        canonical = (===_iff _ _).0 canonical;
        extends = record {
          sequence = ==→≡ _ _ number;
          previous_hash = (same_or_null_iff _ _).0 link;
          hash = (===_iff _ _).0 sum;
        };
      },
      ground arith,
    )

Passes-verify_envelope :
    (states : Dict Tip) (e : Envelope) (tenant : String)
    → Passes states e tenant
    → verify_envelope states e ≡ ok (set states tenant (tip_after e))
unfolding verify_envelope
Passes-verify_envelope states e tenant p = rw (
  p.scoped,
  (===_iff _ _).1 p.algorithm,
  (===_iff _ _).1 p.canonical,
  (==_iff _ _).1 p.extends.sequence,
  (same_or_null_iff _ _).1 p.extends.previous_hash,
  (===_iff _ _).1 p.extends.hash,
)

pub truthy-eq-some : (o : Option String) (s : String) → truthy o ≡ some s → o ≡ some s
unfolding truthy
truthy-eq-some none s h = cc
truthy-eq-some (some t) s h = ground arith

module _ (states : Dict Tip) (e : Envelope) (tenant : String) (es : List Envelope) where
  is_of-eq : (t : String) → truthy e.tenant_id ≡ some tenant → is_of t e ≡ (tenant === t)
  unfolding is_of same_or_null
  is_of-eq t h = rw (truthy-eq-some e.tenant_id tenant h)

  tip_of-set :
      (t : String)
      → tip_of (set states tenant (tip_after e)) t
        ≡ (if tenant === t then tip_after e else tip_of states t)
  tip_of-set t = ground (arith, get-set states tenant t (tip_after e))

  -- One accepted record adds one link to its tenant's chain and leaves the others.
  Linked-cons :
      (t : String)
      → Passes states e tenant
      → Linked (tip_of (set states tenant (tip_after e)) t) (of_tenant t es)
      → Linked (tip_of states t) (of_tenant t (e ∷ es))
  Linked-cons t p h = elim (Bool-cases (tenant === t)) [
    | inl same ↦
        let h' : Linked (tip_after e) (of_tenant t es) = rw (tip_of-set t, same) at h in
        rw (is_of-eq t p.scoped, same)
          (subst (λ u. Extends (tip_of states u) e) ((===_iff _ _).0 same) p.extends, h')
    | inr other ↦
        let h' : Linked (tip_of states t) (of_tenant t es) = rw (tip_of-set t, other) at h in
        rw (is_of-eq t p.scoped, other) h'
  ]

  Linked-uncons :
      (t : String)
      → truthy e.tenant_id ≡ some tenant
      → Linked (tip_of states t) (of_tenant t (e ∷ es))
      → Linked (tip_of (set states tenant (tip_after e)) t) (of_tenant t es)
  Linked-uncons t s h = elim (Bool-cases (tenant === t)) [
    | inl same ↦
        let h' : Linked (tip_of states t) (e ∷ of_tenant t es) = rw (is_of-eq t s, same) at h in
        rw (tip_of-set t, same) h'.1
    | inr other ↦
        let h' : Linked (tip_of states t) (of_tenant t es) = rw (is_of-eq t s, other) at h in
        rw (tip_of-set t, other) h'
  ]

  Linked-head :
      truthy e.tenant_id ≡ some tenant
      → Linked (tip_of states tenant) (of_tenant tenant (e ∷ es))
      → Extends (tip_of states tenant) e
  Linked-head s h =
      let h' : Linked (tip_of states tenant) (e ∷ of_tenant tenant es) =
        rw (is_of-eq tenant s, ===_refl tenant) at h in
      h'.0

Passes-IsSupported :
    {states : Dict Tip} {e : Envelope} {tenant : String} → Passes states e tenant → IsSupported e
Passes-IsSupported {tenant} p = record {
  tenant = tenant;
  scoped = p.scoped;
  algorithm = p.algorithm;
  canonical = p.canonical;
}

abbrev pub Chained : Dict Tip → List Envelope → Type 0
Chained states es =
    All IsSupported es × ((tenant : String) → Linked (tip_of states tenant) (of_tenant tenant es))

verify_from-Chained :
    (i : ℕ) (states : Dict Tip) (es : List Envelope)
    → verify_from i states es ≡ verified
    → Chained states es
unfolding verify_from
verify_from-Chained i states [] h = (tt, λ t. tt)
verify_from-Chained i states (e ∷ es) h = elim (Result-cases (verify_envelope states e)) [
  | inl (next, taken) ↦
      let (tenant, p, moved) = verify_envelope-Passes states e next taken in
      let rest : verify_from (i + 1) next es ≡ verified = rw (taken, verify_from) at h in
      let (supported, linked) =
        verify_from-Chained (i + 1) (set states tenant (tip_after e)) es (rw moved at rest) in
      ((Passes-IsSupported p, supported), λ t. Linked-cons states e tenant es t p (linked t))
  | inr (reason, refused) ↦
      let stopped : failed i reason ≡ verified = rw (refused, verify_from) at h in cc
]

Chained-verify_from :
    (i : ℕ) (states : Dict Tip) (es : List Envelope)
    → Chained states es
    → verify_from i states es ≡ verified
unfolding verify_from
Chained-verify_from i states [] c = refl
Chained-verify_from i states (e ∷ es) c =
    rw (Passes-verify_envelope states e s.tenant passes, verify_from)
      (Chained-verify_from (i + 1) (set states s.tenant (tip_after e)) es
        (c.0.1, λ t. Linked-uncons states e s.tenant es t s.scoped (c.1 t)))
  where
    s : IsSupported e
    s = c.0.0

    passes : Passes states e s.tenant
    passes = record {
      scoped = s.scoped;
      algorithm = s.algorithm;
      canonical = s.canonical;
      extends = Linked-head states e s.tenant es s.scoped (c.1 s.tenant);
    }

verify_envelopes_iff : (es : List Envelope) → (verify_envelopes es ≡ verified) ↔ Chained [] es
verify_envelopes_iff es = (verify_from-Chained 0 [] es, Chained-verify_from 0 [] es)

-- Every record has a tenant, the hash algorithm and the canonicalization of the protocol, and for
-- every tenant its records, in their order, are numbered from 1 with no gap, each with the hash of
-- the one before and the hash that is recomputed from its contents.
abbrev pub IsEvidence : List Envelope → Type 0
IsEvidence es = All IsSupported es × ((tenant : String) → Linked genesis (of_tenant tenant es))

module _ (sha256 : Text → String) where
  -- `verifyAuditRecords` and `verifyEvidenceEdgeRecords` accept a list exactly if every record has
  -- a tenant, the hash algorithm and the canonicalization of the protocol, and for every tenant its
  -- records, in their order, are numbered from 1 with no gap, each with the hash of the one before
  -- and the hash that is recomputed from its contents.
  pub verify_records_iff :
      (records : List AuditRecord) (edges : List EvidenceEdgeRecord)
      → ((verify_audit_records sha256 records ≡ verified)
          ↔ IsEvidence (map (audit_envelope sha256) records))
        × ((verify_evidence_edge_records sha256 edges ≡ verified)
            ↔ IsEvidence (map (edge_envelope sha256) edges))
  unfolding verify_audit_records verify_evidence_edge_records get
  verify_records_iff records edges = (
    verify_envelopes_iff (map (audit_envelope sha256) records),
    verify_envelopes_iff (map (edge_envelope sha256) edges),
  )
