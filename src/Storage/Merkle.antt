-- ===== src/Storage/Merkle.antt =====
-- Merkle roots: internal/storage/merkle.go, and computeMerkle with ComputeVersionMerkleRoot of
-- internal/engine/version_vector.go.
pub mod Root
pub mod Binding
use wavicle.Prelude.{
  ℕ, zero, suc, Bytes, Bool, if◌then◌else◌, ◌==◌, bytes_eq, Option, none, some, List, [], ◌∷◌, ◌++◌,
  Dict, length, lookup,
}
use wavicle.Core.{Hash, zeros, zero_hash}

-- `sha3` is SHA3-256, of golang.org/x/crypto or of the standard library.
module _ (sha3 : Bytes → Hash) where
  -- one round: neighbours are hashed together, an odd last hash goes up as it is
  unfoldable pub next_level : List Hash → List Hash
  next_level [] = []
  next_level (h ∷ []) = h ∷ []
  next_level (h ∷ k ∷ hs) = sha3 (h ++ k) ∷ next_level hs

  -- computeRoot on fuel; `none` is a run that is not over. Without hashes the source's recursion
  -- would not end, and its caller excludes that.
  unfoldable pub compute_root : ℕ → List Hash → Option Hash
  unfolding next_level
  compute_root zero hashes = none
  compute_root (suc fuel) (h ∷ []) = some h
  compute_root (suc fuel) hashes = compute_root fuel (next_level hashes)

  -- Root of a MerkleTree with these leaves
  unfoldable pub root : ℕ → List Hash → Option Hash
  unfolding compute_root
  root fuel [] = some zero_hash
  root fuel (h ∷ hs) = compute_root fuel (h ∷ hs)

  -- computeMerkle of the engine
  unfoldable pub compute_merkle : ℕ → List Hash → Option Hash
  unfolding next_level
  compute_merkle zero hashes = none
  compute_merkle (suc fuel) [] = some zero_hash
  compute_merkle (suc fuel) (h ∷ []) = some h
  compute_merkle (suc fuel) (h ∷ k ∷ hs) = compute_merkle fuel (next_level (h ∷ k ∷ hs))

-- Insert
unfoldable pub insert_leaf : Hash → List Hash → List Hash
insert_leaf h leaves = leaves ++ h ∷ []

-- the loop of ComputeVersionMerkleRoot: an entry without a hash takes the current one
unfoldable pub current_hashes : (Bytes → Option Hash) → Dict Bytes Hash → List Hash
current_hashes current [] = []
current_hashes current ((p, h) ∷ entries) =
    (if h == zero_hash then elim (current p) [ none ↦ h | some c ↦ c ] else h)
    ∷ current_hashes current entries
