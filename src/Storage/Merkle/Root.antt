-- ===== src/Storage/Merkle/Root.antt =====
-- Merkle roots end, and the two implementations agree.
use wavicle.Prelude.{
  ℕ, zero, suc, ◌+◌, ◌≤◌, ◌<◌, Bytes, ◌≡◌, refl, ◌∙◌, some, List, [], ◌∷◌, ◌++◌, arith, length,
}
use wavicle.Core.{Hash, zero_hash}
use wavicle.Storage.Merkle.{next_level, compute_root, root, compute_merkle}

module _ (sha3 : Bytes → Hash) where
  -- each round halves the hashes
  length-next_level-le :
      (hs : List Hash) → length (next_level sha3 hs) + length (next_level sha3 hs) ≤ length hs + 1
  unfolding next_level
  length-next_level-le [] = omega arith
  length-next_level-le (h ∷ []) = omega arith
  length-next_level-le (h ∷ k ∷ hs) = omega (arith, length-next_level-le hs)

  compute_merkle-total :
      (fuel : ℕ) (hs : List Hash)
      → length hs < fuel
      → (r : Hash) × (compute_merkle sha3 fuel hs ≡ some r)
  unfolding compute_merkle
  compute_merkle-total zero hs h = absurd (omega arith)
  compute_merkle-total (suc fuel) [] h = (zero_hash, refl)
  compute_merkle-total (suc fuel) (x ∷ []) h = (x, refl)
  compute_merkle-total (suc fuel) (x ∷ y ∷ hs) h =
      compute_merkle-total fuel (next_level sha3 (x ∷ y ∷ hs))
        (omega (arith, length-next_level-le (x ∷ y ∷ hs)))

  compute_root-merkle :
      (fuel : ℕ) (h : Hash) (hs : List Hash)
      → compute_root sha3 fuel (h ∷ hs) ≡ compute_merkle sha3 fuel (h ∷ hs)
  unfolding compute_root compute_merkle
  compute_root-merkle zero h hs = refl
  compute_root-merkle (suc fuel) h [] = refl
  compute_root-merkle (suc fuel) h (k ∷ hs) =
      compute_root-merkle fuel (sha3 (h ++ k)) (next_level sha3 hs)

  -- With more fuel than leaves, the storage engine's Root and the engine's computeMerkle both end
  -- and return the same hash, for every list of leaves, the empty one included.
  root-eq-compute_merkle :
      (fuel : ℕ) (hs : List Hash)
      → length hs < fuel
      → (r : Hash) × (root sha3 fuel hs ≡ some r) × (compute_merkle sha3 fuel hs ≡ some r)
  unfolding root
  root-eq-compute_merkle zero [] h = absurd (omega arith)
  root-eq-compute_merkle (suc fuel) [] h = (zero_hash, refl, unfold compute_merkle in refl)
  root-eq-compute_merkle fuel (x ∷ hs) h =
      let (r, e) = compute_merkle-total fuel (x ∷ hs) h in (r, compute_root-merkle fuel x hs ∙ e, e)
