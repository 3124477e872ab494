-- ===== src/Commit/Members.antt =====
-- `normalizeCommitMembers` of sdks/typescript/src/index.ts twice.
use veritio.Prelude.{
  ℕ, ◌+◌, ◌≡◌, refl, List, [], ◌∷◌, not, any, leb, ◌==◌, ==→≡, arith, Bool-cases, inl, inr,
}
use veritio.Prelude.Results.{ok, >>=-eq-ok, require-eq-ok, ok-injective}
use veritio.Commit.{
  CommitMember, check_member, check_members, insert_by_index, sort_by_index, check_manifest,
  same_identity, members_not_contiguous, duplicate_member, check_sorted, normalize_commit_members,
}

-- A member of a low index goes in front of members that are numbered from the next on.
insert-front :
    (m : CommitMember) (expected : ℕ) (seen ms : List CommitMember)
    → m.index ≡ expected
    → check_manifest (expected + 1) seen ms ≡ ok tt
    → insert_by_index m ms ≡ m ∷ ms
unfolding check_manifest insert_by_index
insert-front m expected seen [] e h = refl
insert-front m expected seen (n ∷ ns) e h =
    let (next, h1) = require-eq-ok (n.index == expected + 1) members_not_contiguous _ h in
    ground (arith, ==→≡ n.index (expected + 1) next)

check_manifest-sorted :
    (expected : ℕ) (seen ms : List CommitMember)
    → check_manifest expected seen ms ≡ ok tt
    → sort_by_index ms ≡ ms
unfolding check_manifest sort_by_index
check_manifest-sorted expected seen [] h = refl
check_manifest-sorted expected seen (m ∷ ms) h =
    let (here, h1) = require-eq-ok (m.index == expected) members_not_contiguous _ h in
    let (fresh, h2) = require-eq-ok (not (any (same_identity m) seen)) duplicate_member _ h1 in
    rw (check_manifest-sorted (expected + 1) (m ∷ seen) ms h2)
      (insert-front m expected (m ∷ seen) ms (==→≡ m.index expected here) h2)

insert-checked :
    (m : CommitMember) (ns : List CommitMember)
    → check_member m ≡ ok tt
    → check_members ns ≡ ok tt
    → check_members (insert_by_index m ns) ≡ ok tt
unfolding check_members insert_by_index
insert-checked m [] h k = rw h
insert-checked m (n ∷ ns) h k =
    let (u, one, rest) = >>=-eq-ok (check_member n) _ k in
    elim (Bool-cases (leb m.index n.index)) [
      | inl before ↦ rw (before, h, one) rest
      | inr after ↦ rw (after, one) (insert-checked m ns h rest)
    ]

sort-checked :
    (ms : List CommitMember) → check_members ms ≡ ok tt → check_members (sort_by_index ms) ≡ ok tt
unfolding check_members sort_by_index
sort-checked [] h = refl
sort-checked (m ∷ ms) h =
    let (u, one, rest) = >>=-eq-ok (check_member m) _ h in
    insert-checked m (sort_by_index ms) one (sort-checked ms rest)

-- A list that is normal has a member.
normalize_lists :
    (ms : List CommitMember)
    → ¬ (ms ≡ [])
    → check_members ms ≡ ok tt
    → check_manifest 0 [] ms ≡ ok tt
    → normalize_commit_members ms ≡ ok ms
unfolding normalize_commit_members check_sorted
normalize_lists [] full h k = absurd (full refl)
normalize_lists (m ∷ ms) full h k = rw (h, check_manifest-sorted 0 [] (m ∷ ms) k, k)

insert-full : (m : CommitMember) (ns : List CommitMember) → ¬ (insert_by_index m ns ≡ [])
unfolding insert_by_index
insert-full m [] h = cc
insert-full m (n ∷ ns) h = ground arith

-- Normal members are their own normal form.
pub normalize-normal :
    (ms sorted : List CommitMember)
    → normalize_commit_members ms ≡ ok sorted
    → normalize_commit_members sorted ≡ ok sorted
unfolding normalize_commit_members check_sorted
normalize-normal [] sorted h = cc
normalize-normal (m ∷ ms) sorted h =
    let (u, checked, h1) = >>=-eq-ok (check_members (m ∷ ms)) _ h in
    let (v, listed, h2) = >>=-eq-ok (check_manifest 0 [] (sort_by_index (m ∷ ms))) _ h1 in
    let same = ok-injective h2 in
    rw (← same) (
      normalize_lists (sort_by_index (m ∷ ms))
        (unfold sort_by_index in insert-full m (sort_by_index ms)) (sort-checked (m ∷ ms) checked)
        listed)
