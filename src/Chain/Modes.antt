-- ===== src/Chain/Modes.antt =====
-- `verifyScopedChain` of sdks/typescript/src/export-bundle-chain-modes.ts, over the envelopes that
-- the accessors of its two families give. A sequence is a natural number, a hash a string and a
-- previous hash a string or null, so the tests of their JavaScript types hold.
use veritio.Prelude.{
  ℕ, ◌+◌, String, Option, none, some, List, [], ◌∷◌, Bool, true, false, not, ◌&&◌, ltb, leb, ◌==◌,
  ◌===◌, same_or_null, if◌then◌else◌,
}
use veritio.Prelude.Dict.{Dict, get, set}
use veritio.Prelude.Results.{Result, ok, throws, require, ◌>>=◌, ◌>>◌}
use veritio.Protocol.{truthy, sha256_algorithm, json_v1}
use veritio.Chain.{
  Reason, unsupported_hash_algorithm, unsupported_canonicalization, sequence_mismatch,
  previous_hash_mismatch, hash_mismatch, VerificationResult, verified, failed, Envelope, Tip,
  tip_after, present,
}

pub data ChainScope : Type 0 where
  windowed filtered : ChainScope

abbrev pub is_null : Option String → Bool
is_null none = true
is_null (some s) = false

-- A record that does not follow the last one of its tenant directly.
abbrev pub across_gap : ChainScope → Tip → Envelope → Result Reason (Unit {0})
across_gap windowed tip e = throws sequence_mismatch
across_gap filtered tip e = do
  require (not (leb e.sequence tip.sequence)) sequence_mismatch
  require (not (is_null e.previous_hash)) previous_hash_mismatch

-- The rules of linkage, by the last record of the tenant.
unfoldable pub check_link : ChainScope → Option Tip → Envelope → Result Reason (Unit {0})
check_link scope none e = do
  require (not (e.sequence == 1 && not (is_null e.previous_hash))) previous_hash_mismatch
  require (not (ltb 1 e.sequence && is_null e.previous_hash)) previous_hash_mismatch
check_link scope (some tip) e =
    if e.sequence == tip.sequence + 1
    then require (same_or_null e.previous_hash tip.previous_hash) previous_hash_mismatch
    else across_gap scope tip e

unfoldable pub verify_scoped_envelope : ChainScope → Dict Tip → Envelope → Result Reason (Dict Tip)
verify_scoped_envelope scope states e = do
  tenant ← present (truthy e.tenant_id)
  require (e.hash_algorithm === sha256_algorithm) unsupported_hash_algorithm
  require (e.canonicalization === json_v1) unsupported_canonicalization
  require (not (ltb e.sequence 1)) sequence_mismatch
  require (e.recomputed_hash === e.hash) hash_mismatch
  check_link scope (get states tenant) e
  ok (set states tenant (tip_after e))

-- The rest of the loop from index `i`; the code reports the reason alone.
unfoldable pub verify_scoped_from : ChainScope → ℕ → Dict Tip → List Envelope → VerificationResult
verify_scoped_from scope i states [] = verified
verify_scoped_from scope i states (e ∷ es) = elim (verify_scoped_envelope scope states e) [
  | ok next ↦ verify_scoped_from scope (i + 1) next es
  | throws reason ↦ failed i reason
]

abbrev pub verify_scoped_chain : ChainScope → List Envelope → VerificationResult
verify_scoped_chain scope es = verify_scoped_from scope 0 [] es
