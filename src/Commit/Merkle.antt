-- ===== src/Commit/Merkle.antt =====
-- The loop of `computeRecordsRoot` (sdks/typescript/src/index.ts) ends.
use veritio.Prelude.{ℕ, zero, suc, ◌≤◌, ◌≡◌, refl, String, some, List, [], ◌∷◌, length, map, arith}
use veritio.Prelude.Text.{Text}
use veritio.Commit.{
  CommitMember, commit_leaf_hash, node_hash, next_level, root_of, compute_records_root,
}

module _ (sha256 : Text → String) where
  -- A pass shortens a level of two or more and empties none.
  length-next_level :
      (x y : String) (rest : List String)
      → length (next_level sha256 (x ∷ y ∷ rest)) ≤ suc (length rest)
  unfolding next_level
  length-next_level x y [] = omega arith
  length-next_level x y (z ∷ []) = omega arith
  length-next_level x y (z ∷ w ∷ rest) = omega (arith, length-next_level z w rest)

  -- With fuel as long as the level the loop reaches a root, and more fuel gives the same.
  root_of-some :
      (fuel more : ℕ) (x : String) (xs : List String)
      → length (x ∷ xs) ≤ fuel
      → length (x ∷ xs) ≤ more
      → (root : String) × (root_of sha256 fuel (x ∷ xs) ≡ some root)
        × (root_of sha256 more (x ∷ xs) ≡ some root)
  unfolding root_of next_level
  root_of-some fuel more x [] h k = (x, refl, refl)
  root_of-some zero more x (y ∷ rest) h k = absurd (omega (arith, h))
  root_of-some (suc fuel) zero x (y ∷ rest) h k = absurd (omega (arith, k))
  root_of-some (suc fuel) (suc more) x (y ∷ []) h k = (node_hash sha256 x y, refl, refl)
  root_of-some (suc fuel) (suc more) x (y ∷ z ∷ rest) h k =
      root_of-some fuel more (node_hash sha256 x y) (next_level sha256 (z ∷ rest))
        (omega (arith, h, length-next_level x y (z ∷ rest)))
        (omega (arith, k, length-next_level x y (z ∷ rest)))

  length-leaves : (ms : List CommitMember) → length (map (commit_leaf_hash sha256) ms) ≡ length ms
  length-leaves [] = refl
  length-leaves (m ∷ ms) = omega (arith, length-leaves ms)

  -- A manifest that is not empty has a Merkle root, and the loop with any number of passes from the
  -- number of its members on reaches that root.
  pub compute_records_root_ends :
      (m : CommitMember) (ms : List CommitMember) (fuel : ℕ)
      → length (m ∷ ms) ≤ fuel
      → (root : String) × (compute_records_root sha256 (m ∷ ms) ≡ some root)
        × (root_of sha256 fuel (map (commit_leaf_hash sha256) (m ∷ ms)) ≡ some root)
  unfolding compute_records_root
  compute_records_root_ends m ms fuel h =
      root_of-some (length (m ∷ ms)) fuel (commit_leaf_hash sha256 m)
        (map (commit_leaf_hash sha256) ms) (omega (arith, length-leaves ms))
        (omega (arith, h, length-leaves ms))
