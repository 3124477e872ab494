-- ===== src/Commit/Extended.antt =====
-- A commit that is created on the end of a verified ledger (sdks/typescript/src/index.ts).
use veritio.Prelude.{
  ℕ, ◌+◌, ◌≡◌, refl, sym, ap, String, Option, none, some, List, [], ◌∷◌, ◌++◌, true, false, not,
  leb, ==_iff, ◌===◌, ===_refl, same_or_null_iff, length, inl, inr,
}
use veritio.Prelude.Text.{Text, is_blank, is_empty}
use veritio.Prelude.Dict.{Dict, set}
use veritio.Prelude.Results.{ok, >>=-eq-ok, require-eq-ok, ok-injective, Result-cases}
use veritio.Chain.{Tip, tip_of}
use veritio.Commit.{
  CommitMember, CommitInput, Commit, commit_id_required, stream_id_required, sequence_not_positive,
  invalid_previous_hash, normalize_commit_members, commit_json, compute_records_root,
  hash_evidence_commit,
}
use veritio.Commit.Ledger.{
  rooted, is_null_or_digest, tip_of_commit, unsealed, seal_commit, create_evidence_commit,
  check_contents, check_commit, verify_commits_from, verify_evidence_commits,
}
use veritio.Commit.Members.{normalize-normal}

is_blank-is_empty : (s : String) → not (is_blank s) ≡ true → is_empty s ≡ false
unfolding is_blank is_empty
is_blank-is_empty String.[] h = cc
is_blank-is_empty (String.◌∷◌ c cs) h = refl

rooted-eq-ok : (o : Option String) (root : String) → rooted o ≡ ok root → o ≡ some root
rooted-eq-ok none root h = cc
rooted-eq-ok (some r) root h = cc

module _ (sha256 : Text → String) where
  -- How a created commit is made up.
  record Creates (input : CommitInput) (committed_at : String) (c : Commit) : Type 0 where
    members : List CommitMember
    root : String
    named : not (is_blank input.stream_id) ≡ true
    normal : normalize_commit_members input.members ≡ ok members
    rooted_at : compute_records_root sha256 members ≡ some root
    made : c ≡ record (unsealed sha256 input members root committed_at) {
      hash = hash_evidence_commit sha256 (unsealed sha256 input members root committed_at);
    }

  create-Creates :
      (input : CommitInput) (committed_at : String) (c : Commit)
      → create_evidence_commit sha256 input committed_at ≡ ok c
      → Creates input committed_at c
  unfolding create_evidence_commit seal_commit
  create-Creates input committed_at c h =
      let (id, h1) = require-eq-ok (not (is_blank input.commit_id)) commit_id_required _ h in
      let (named, h2) = require-eq-ok (not (is_blank input.stream_id)) stream_id_required _ h1 in
      let (positive, h3) = require-eq-ok (leb 1 input.sequence) sequence_not_positive _ h2 in
      let (previous, h4) =
        require-eq-ok (is_null_or_digest input.previous_commit_hash) invalid_previous_hash _ h3 in
      let (members, normal, h5) = >>=-eq-ok (normalize_commit_members input.members) _ h4 in
      let (root, based, h6) = >>=-eq-ok (rooted (compute_records_root sha256 members)) _ h5 in
      record {
        members = members;
        root = root;
        named = named;
        normal = normal;
        rooted_at = rooted-eq-ok _ root based;
        made = sym (ok-injective h6);
      }

  hash-sealed :
      (bare : Commit)
      → (hash_evidence_commit sha256 bare
          === hash_evidence_commit sha256 (record bare { hash = hash_evidence_commit sha256 bare }))
        ≡ true
  unfolding hash_evidence_commit commit_json
  hash-sealed bare = ===_refl (hash_evidence_commit sha256 bare)

  created-checked :
      (input : CommitInput) (committed_at : String) (c : Commit) (tip : Tip)
      → Creates input committed_at c
      → input.sequence ≡ tip.sequence + 1
      → input.previous_commit_hash ≡ tip.previous_hash
      → check_commit sha256 tip c ≡ ok tt
  unfolding check_commit check_contents
  created-checked input committed_at c tip k number link = rw (
    k.made,
    is_blank-is_empty input.stream_id k.named,
    (same_or_null_iff input.previous_commit_hash tip.previous_hash).1 link,
    (==_iff input.sequence (tip.sequence + 1)).1 number,
    normalize-normal input.members k.members k.normal,
    (==_iff (length k.members) (length k.members)).1 refl,
    k.rooted_at,
    (same_or_null_iff (some k.root) (some k.root)).1 refl,
    hash-sealed (unsealed sha256 input k.members k.root committed_at),
  )

  verify_commits_from-extend :
      (i : ℕ) (streams last : Dict Tip) (commits : List Commit) (c : Commit)
      → verify_commits_from sha256 i streams commits ≡ ok last
      → check_commit sha256 (tip_of last c.stream_id) c ≡ ok tt
      → verify_commits_from sha256 i streams (commits ++ c ∷ [])
        ≡ ok (set last c.stream_id (tip_of_commit c))
  unfolding verify_commits_from
  verify_commits_from-extend i streams last [] c h k =
      let same : streams ≡ last = ok-injective h in
      let checked = rw (← same) at k in
      rw (checked, verify_commits_from) (ap (λ s. ok (set s c.stream_id (tip_of_commit c))) same)
  verify_commits_from-extend i streams last (d ∷ ds) c h k =
      elim (Result-cases (check_commit sha256 (tip_of streams d.stream_id) d)) [
        | inl (u, passed) ↦
            rw (passed, verify_commits_from)
              (verify_commits_from-extend (i + 1) (set streams d.stream_id (tip_of_commit d)) last
                ds c (rw (passed, verify_commits_from) at h) k)
        | inr (reason, refused) ↦ let no = rw (refused, verify_commits_from) at h in cc
      ]

  -- If `verifyEvidenceCommits` accepts a ledger, then it accepts the ledger with one more commit that
  -- `createEvidenceCommit` returns for an input with the next sequence number and the last commit
  -- hash of its stream, and that commit is then the stream's last.
  pub created_commit_extends :
      (commits : List Commit) (streams : Dict Tip) (input : CommitInput) (committed_at : String)
      (c : Commit)
      → verify_evidence_commits sha256 commits ≡ ok streams
      → create_evidence_commit sha256 input committed_at ≡ ok c
      → input.sequence ≡ (tip_of streams input.stream_id).sequence + 1
      → input.previous_commit_hash ≡ (tip_of streams input.stream_id).previous_hash
      → verify_evidence_commits sha256 (commits ++ c ∷ [])
        ≡ ok (set streams input.stream_id (tip_of_commit c))
  created_commit_extends commits streams input committed_at c verified created number link =
      let k = create-Creates input committed_at c created in
      let same : c.stream_id ≡ input.stream_id = rw k.made in
      rw (← same) (
        verify_commits_from-extend 0 [] streams commits c verified (
          created-checked input committed_at c (tip_of streams c.stream_id) k (rw same number)
            (rw same link)))
