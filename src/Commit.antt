-- ===== src/Commit.antt =====
-- Evidence commits of sdks/typescript/src/index.ts: `createEvidenceCommit`, `hashEvidenceCommit`,
-- `verifyEvidenceCommits` and their helpers. A commit is an object of the declared type, so the tests
-- of JavaScript types hold. The time is the ISO text that `normalizeDate` makes.
use Prim.Native.String.{◌++◌ as text_append}
pub mod Ledger
pub mod Merkle
pub mod Extended
pub mod Members
use veritio.Prelude.{
  ℕ, zero, suc, ◌+◌, String, Option, none, some, List, [], ◌∷◌, Bool, true, false, not, ◌&&◌, ◌||◌,
  leb, ltb, ◌==◌, ◌===◌, same_or_null, if◌then◌else◌, every, any, length, map,
}
use veritio.Prelude.Text.{Text, codes, is_blank, is_empty, is_lower_hex}
use veritio.Prelude.Dict.{Dict, get, set}
use veritio.Prelude.Results.{Result, ok, throws, require, ◌>>=◌, ◌>>◌}
use veritio.Json.{Json, Items, null, num, str, arr, obj, end, member, nil, item, canonical_json}
use veritio.Protocol.{sha256_algorithm, json_v1}
use veritio.Chain.{Tip, tip_of}

pub record CommitMember : Type 0 where
  pub index : ℕ
  pub record_type : String
  pub record_id : String
  pub record_hash : String

pub record CommitInput : Type 0 where
  pub commit_id : String
  pub stream_id : String
  pub sequence : ℕ
  pub previous_commit_hash : Option String
  pub members : List CommitMember

pub record Commit : Type 0 where
  pub record_type : String
  pub schema_version : String
  pub commit_id : String
  pub stream_id : String
  pub sequence : ℕ
  pub previous_commit_hash : Option String
  pub members : List CommitMember
  pub record_count : ℕ
  pub records_root : String
  pub canonicalization : String
  pub hash_algorithm : String
  pub tree_algorithm : String
  pub committed_at : String
  pub hash : String

pub data CommitReason : Type 0 where
  unsupported_hash_algorithm unsupported_canonicalization unsupported_tree_algorithm : CommitReason
  sequence_mismatch previous_hash_mismatch record_count_mismatch : CommitReason
  records_root_mismatch hash_mismatch invalid_member_manifest : CommitReason

-- One constructor for each `TypeError`.
pub data CommitError : Type 0 where
  commit_id_required stream_id_required sequence_not_positive : CommitError
  invalid_previous_hash members_empty unsupported_record_type record_id_required : CommitError
  invalid_record_hash members_not_contiguous duplicate_member : CommitError

abbrev pub merkle_v1 : String
merkle_v1 = "veritio-merkle-v1"

drop_prefix : Text → Text → Option Text
drop_prefix [] text = some text
drop_prefix (p ∷ ps) [] = none
drop_prefix (p ∷ ps) (c ∷ cs) = let rest = drop_prefix ps cs in if p == c then rest else none

is_hex_64 : Option Text → Bool
is_hex_64 none = false
is_hex_64 (some cs) = length cs == 64 && every is_lower_hex cs

-- /^sha256:[a-f0-9]{64}$/
unfoldable pub is_sha256_digest : String → Bool
unfolding drop_prefix is_hex_64
is_sha256_digest s = is_hex_64 (drop_prefix (codes "sha256:") (codes s))

unfoldable pub is_member_record_type : String → Bool
is_member_record_type s =
    s === "audit.record"
    || s === "evidence.edge.record"
    || s === "entity.revision.record"
    || s === "activity.record"
    || s === "assertion.record"
    || s === "change.record"

unfoldable pub check_member : CommitMember → Result CommitError (Unit {0})
check_member m = do
  require (is_member_record_type m.record_type) unsupported_record_type
  require (not (is_blank m.record_id)) record_id_required
  require (is_sha256_digest m.record_hash) invalid_record_hash

unfoldable pub check_members : List CommitMember → Result CommitError (Unit {0})
check_members [] = ok tt
check_members (m ∷ ms) = do check_member m; check_members ms

unfoldable pub insert_by_index : CommitMember → List CommitMember → List CommitMember
insert_by_index m [] = m ∷ []
insert_by_index m (n ∷ ns) =
    let rest = insert_by_index m ns in if leb m.index n.index then m ∷ n ∷ ns else n ∷ rest

unfoldable pub sort_by_index : List CommitMember → List CommitMember
unfolding insert_by_index
sort_by_index [] = []
sort_by_index (m ∷ ms) = insert_by_index m (sort_by_index ms)

-- The two parts of an identity are joined by a NUL, which no record type holds.
unfoldable pub same_identity : CommitMember → CommitMember → Bool
same_identity m n = m.record_type === n.record_type && m.record_id === n.record_id

-- The loop over the sorted members: `seen` are those before the index.
unfoldable pub check_manifest :
    ℕ → List CommitMember → List CommitMember → Result CommitError (Unit {0})
check_manifest expected seen [] = ok tt
check_manifest expected seen (m ∷ ms) = do
  require (m.index == expected) members_not_contiguous
  require (not (any (same_identity m) seen)) duplicate_member
  check_manifest (expected + 1) (m ∷ seen) ms

unfoldable pub check_sorted : List CommitMember → Result CommitError (List CommitMember)
check_sorted sorted = do check_manifest 0 [] sorted; ok sorted

unfoldable pub normalize_commit_members : List CommitMember → Result CommitError (List CommitMember)
unfolding check_members sort_by_index check_sorted
normalize_commit_members [] = throws members_empty
normalize_commit_members (m ∷ ms) = do check_members (m ∷ ms); check_sorted (sort_by_index (m ∷ ms))

or_null : Option String → Json
or_null none = null
or_null (some s) = str s

member_json : CommitMember → Json
member_json m = obj (
    member "index" (num m.index) (
      member "recordType" (str m.record_type)
        (member "recordId" (str m.record_id) (member "recordHash" (str m.record_hash) end))))

members_json : List CommitMember → Items
unfolding member_json
members_json [] = nil
members_json (m ∷ ms) = item (member_json m) (members_json ms)

-- Every field but `hash`.
unfoldable pub commit_json : Commit → Json
unfolding or_null members_json
commit_json c = obj (
    member "recordType" (str c.record_type) (
      member "schemaVersion" (str c.schema_version) (
        member "commitId" (str c.commit_id) (
          member "streamId" (str c.stream_id) (
            member "sequence" (num c.sequence) (
              member "previousCommitHash" (or_null c.previous_commit_hash) (
                member "members" (arr (members_json c.members)) (
                  member "recordCount" (num c.record_count) (
                    member "recordsRoot" (str c.records_root) (
                      member "canonicalization" (str c.canonicalization) (
                        member "hashAlgorithm" (str c.hash_algorithm) (
                          member "treeAlgorithm" (str c.tree_algorithm)
                            (member "committedAt" (str c.committed_at) end)))))))))))))

module _ (sha256 : Text → String) where
  unfoldable pub prefixed_sha256 : Text → String
  prefixed_sha256 text = text_append "sha256:" (sha256 text)

  unfoldable pub hash_evidence_commit : Commit → String
  hash_evidence_commit c = prefixed_sha256 (
      canonical_json
        (obj (member "domain" (str "veritio-commit-v1") (member "commit" (commit_json c) end))))

  unfoldable pub commit_leaf_hash : CommitMember → String
  commit_leaf_hash m = prefixed_sha256 (
      canonical_json (
        obj (
          member "domain" (str "veritio-record-leaf-v1") (
            member "index" (num m.index) (
              member "recordType" (str m.record_type) (
                member "recordId" (str m.record_id)
                  (member "recordHash" (str m.record_hash) end)))))))

  unfoldable pub node_hash : String → String → String
  node_hash left right = prefixed_sha256 (
      canonical_json (
        obj (
          member "domain" (str "veritio-merkle-node-v1")
            (member "left" (str left) (member "right" (str right) end)))))

  -- One pass of the loop: the last hash of an odd level is paired with itself.
  unfoldable pub next_level : List String → List String
  next_level [] = []
  next_level (x ∷ []) = node_hash x x ∷ []
  next_level (x ∷ y ∷ rest) = node_hash x y ∷ next_level rest

  -- The loop; `fuel` as long as the level is enough. An empty level has no root.
  unfoldable pub root_of : ℕ → List String → Option String
  root_of fuel [] = none
  root_of fuel (x ∷ []) = some x
  root_of zero (x ∷ y ∷ rest) = none
  root_of (suc fuel) (x ∷ y ∷ rest) = root_of fuel (next_level (x ∷ y ∷ rest))

  unfoldable pub compute_records_root : List CommitMember → Option String
  compute_records_root members = root_of (length members) (map commit_leaf_hash members)
