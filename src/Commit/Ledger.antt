-- ===== src/Commit/Ledger.antt =====
-- `createEvidenceCommit` and `verifyEvidenceCommits` of sdks/typescript/src/index.ts.
use veritio.Prelude.{
  ℕ, ◌+◌, String, Option, none, some, List, [], ◌∷◌, Bool, not, ◌==◌, leb, ◌===◌, same_or_null,
  length,
}
use veritio.Prelude.Text.{Text, is_blank, is_empty}
use veritio.Prelude.Dict.{Dict, set}
use veritio.Prelude.Results.{Result, ok, throws, require, ◌>>=◌, ◌>>◌}
use veritio.Protocol.{sha256_algorithm, json_v1}
use veritio.Chain.{Tip, tip_of}
use veritio.Commit.{
  CommitMember, CommitInput, Commit, CommitReason, unsupported_hash_algorithm,
  unsupported_canonicalization, unsupported_tree_algorithm, sequence_mismatch,
  previous_hash_mismatch, record_count_mismatch, records_root_mismatch, hash_mismatch,
  invalid_member_manifest, CommitError, commit_id_required, stream_id_required,
  sequence_not_positive, invalid_previous_hash, members_empty, merkle_v1, is_sha256_digest,
  normalize_commit_members, compute_records_root, hash_evidence_commit,
}

abbrev pub commit_type : String
commit_type = "evidence.commit"

abbrev pub commit_schema_version : String
commit_schema_version = "2026-06-23"

abbrev pub is_null_or_digest : Option String → Bool
is_null_or_digest none = Bool.true
is_null_or_digest (some s) = is_sha256_digest s

abbrev pub rooted : Option String → Result CommitError String
rooted none = throws members_empty
rooted (some root) = ok root

-- A manifest that does not normalize is one reason for the verifier.
abbrev pub or_invalid_manifest : {A : Type 0} → Result CommitError A → Result CommitReason A
or_invalid_manifest (ok a) = ok a
or_invalid_manifest (throws e) = throws invalid_member_manifest

abbrev pub tip_of_commit : Commit → Tip
tip_of_commit c = record { previous_hash = some c.hash; sequence = c.sequence }

module _ (sha256 : Text → String) where
  abbrev pub unsealed : CommitInput → List CommitMember → String → String → Commit
  unsealed input members root committed_at = record {
    record_type = commit_type;
    schema_version = commit_schema_version;
    commit_id = input.commit_id;
    stream_id = input.stream_id;
    sequence = input.sequence;
    previous_commit_hash = input.previous_commit_hash;
    members = members;
    record_count = length members;
    records_root = root;
    canonicalization = json_v1;
    hash_algorithm = sha256_algorithm;
    tree_algorithm = merkle_v1;
    committed_at = committed_at;
    hash = "";
  }

  unfoldable pub seal_commit : CommitInput → String → List CommitMember → Result CommitError Commit
  seal_commit input committed_at members = do
    root ← rooted (compute_records_root sha256 members)
    let bare = unsealed input members root committed_at
    ok (record bare { hash = hash_evidence_commit sha256 bare })

  unfoldable pub create_evidence_commit : CommitInput → String → Result CommitError Commit
  create_evidence_commit input committed_at = do
    require (not (is_blank input.commit_id)) commit_id_required
    require (not (is_blank input.stream_id)) stream_id_required
    require (leb 1 input.sequence) sequence_not_positive
    require (is_null_or_digest input.previous_commit_hash) invalid_previous_hash
    members ← normalize_commit_members input.members
    seal_commit input committed_at members

  -- The tests on a commit's contents.
  unfoldable pub check_contents : Commit → List CommitMember → Result CommitReason (Unit {0})
  check_contents c members = do
    require (c.record_count == length members) record_count_mismatch
    require (same_or_null (some c.records_root) (compute_records_root sha256 members))
        records_root_mismatch
    require (c.hash === hash_evidence_commit sha256 c) hash_mismatch

  -- The body of the loop, with the last commit of the stream.
  unfoldable pub check_commit : Tip → Commit → Result CommitReason (Unit {0})
  check_commit state c = do
    require (c.hash_algorithm === sha256_algorithm) unsupported_hash_algorithm
    require (c.canonicalization === json_v1) unsupported_canonicalization
    require (c.tree_algorithm === merkle_v1) unsupported_tree_algorithm
    require (not (is_empty c.stream_id)) invalid_member_manifest
    require (same_or_null c.previous_commit_hash state.previous_hash) previous_hash_mismatch
    require (c.sequence == state.sequence + 1) sequence_mismatch
    members ← or_invalid_manifest (normalize_commit_members c.members)
    check_contents c members

  -- The rest of the loop from index `i`: the streams that it ends with, or the failure.
  unfoldable pub verify_commits_from :
      ℕ → Dict Tip → List Commit → Result (ℕ × CommitReason) (Dict Tip)
  verify_commits_from i streams [] = ok streams
  verify_commits_from i streams (c ∷ cs) = elim (check_commit (tip_of streams c.stream_id) c) [
    | ok _ ↦ verify_commits_from (i + 1) (set streams c.stream_id (tip_of_commit c)) cs
    | throws reason ↦ throws (i, reason)
  ]

  abbrev pub verify_evidence_commits : List Commit → Result (ℕ × CommitReason) (Dict Tip)
  verify_evidence_commits commits = verify_commits_from 0 [] commits
