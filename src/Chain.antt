-- ===== src/Chain.antt =====
-- `verifyAuditRecords` and `verifyEvidenceEdgeRecords` of sdks/typescript/src/index.ts. The two have
-- one body over the envelope of a record, whose accessors are those of
-- sdks/typescript/src/export-bundle-chain-modes.ts.
pub mod Linked
pub mod Verdict
pub mod Removal
pub mod Modes
pub mod Scopes
pub mod Filters
use veritio.Prelude.{
  ℕ, ◌+◌, String, Option, none, some, List, [], ◌∷◌, map, ◌==◌, ◌===◌, same_or_null,
}
use veritio.Prelude.Text.{Text}
use veritio.Prelude.Dict.{Dict, get, set}
use veritio.Prelude.Results.{Result, ok, throws, require, ◌>>=◌, ◌>>◌}
use veritio.Protocol.{
  AuditRecord, EvidenceEdgeRecord, tenant_of, truthy, sha256_algorithm, json_v1, hash_audit_record,
  hash_evidence_edge_record,
}

pub data Reason : Type 0 where
  missing_tenant_scope unsupported_hash_algorithm unsupported_canonicalization : Reason
  sequence_mismatch previous_hash_mismatch hash_mismatch : Reason

pub data VerificationResult : Type 0 where
  verified : VerificationResult
  failed : ℕ → Reason → VerificationResult

pub record Envelope : Type 0 where
  pub tenant_id : Option String
  pub hash_algorithm : String
  pub canonicalization : String
  pub sequence : ℕ
  pub previous_hash : Option String
  pub hash : String
  pub recomputed_hash : String

-- The last record seen of a tenant.
pub record Tip : Type 0 where
  pub previous_hash : Option String
  pub sequence : ℕ

abbrev pub genesis : Tip
genesis = record { previous_hash = none; sequence = 0 }

abbrev pub or_genesis : Option Tip → Tip
or_genesis none = genesis
or_genesis (some tip) = tip

abbrev pub tip_of : Dict Tip → String → Tip
tip_of states tenant = or_genesis (get states tenant)

abbrev pub tip_after : Envelope → Tip
tip_after e = record { previous_hash = some e.hash; sequence = e.sequence }

abbrev pub present : Option String → Result Reason String
present none = throws missing_tenant_scope
present (some tenant) = ok tenant

-- The body of the loop: the failure that it returns, or the state of the tenants after the record.
unfoldable pub verify_envelope : Dict Tip → Envelope → Result Reason (Dict Tip)
verify_envelope states e = do
  tenant ← present (truthy e.tenant_id)
  require (e.hash_algorithm === sha256_algorithm) unsupported_hash_algorithm
  require (e.canonicalization === json_v1) unsupported_canonicalization
  let state = tip_of states tenant
  require (e.sequence == state.sequence + 1) sequence_mismatch
  require (same_or_null e.previous_hash state.previous_hash) previous_hash_mismatch
  require (e.hash === e.recomputed_hash) hash_mismatch
  ok (set states tenant (tip_after e))

-- The rest of the loop from index `i`.
unfoldable pub verify_from : ℕ → Dict Tip → List Envelope → VerificationResult
verify_from i states [] = verified
verify_from i states (e ∷ es) = elim (verify_envelope states e) [
  | ok next ↦ verify_from (i + 1) next es
  | throws reason ↦ failed i reason
]

abbrev pub verify_envelopes : List Envelope → VerificationResult
verify_envelopes es = verify_from 0 [] es

module _ (sha256 : Text → String) where
  abbrev pub audit_envelope : AuditRecord → Envelope
  audit_envelope r = record {
    tenant_id = tenant_of r.event.scope;
    hash_algorithm = r.hash_algorithm;
    canonicalization = r.canonicalization;
    sequence = r.sequence;
    previous_hash = r.previous_hash;
    hash = r.hash;
    recomputed_hash = hash_audit_record sha256 r;
  }

  abbrev pub edge_envelope : EvidenceEdgeRecord → Envelope
  edge_envelope r = record {
    tenant_id = tenant_of r.edge.scope;
    hash_algorithm = r.hash_algorithm;
    canonicalization = r.canonicalization;
    sequence = r.sequence;
    previous_hash = r.previous_hash;
    hash = r.hash;
    recomputed_hash = hash_evidence_edge_record sha256 r;
  }

  unfoldable pub verify_audit_records : List AuditRecord → VerificationResult
  verify_audit_records records = verify_envelopes (map audit_envelope records)

  unfoldable pub verify_evidence_edge_records : List EvidenceEdgeRecord → VerificationResult
  verify_evidence_edge_records records = verify_envelopes (map edge_envelope records)
