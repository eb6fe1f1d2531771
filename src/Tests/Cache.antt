-- ===== src/Tests/Cache.antt =====
-- internal/engine/cache.go, the Merkle roots and the serialised records on concrete data.
use wavicle.Prelude.{ℕ, codes, bytes_eq, nat_eq, ◌≡◌, refl, ◌⊎◌, arith, List, [], ◌∷◌, lookup, elem}
use wavicle.Core.{Hash, int, dict, end, field, serialize, zeros}
use wavicle.Core.Order.{swap, serialize-Reordered}
use wavicle.Engine.ProofCache.{Shard, shard_get, shard_set, ProofCache}
use wavicle.Engine.ProofCache.Nodes.{address}
use wavicle.Engine.ProofCache.Refines.{view, spec_get, spec_set, IsValid, shard_get-refines}
use wavicle.Engine.ProofCache.Write.{shard_set-refines}
use wavicle.Storage.Merkle.{compute_merkle, next_level}
use wavicle.Storage.Merkle.Binding.{Collision, compute_merkle-binding}
use wavicle.Tests.{host, sum_hash}

-- One entry: the key 5 with the proof 7, in a shard of capacity 1.
abbrev full_shard : Shard ℕ
full_shard = record {
  entries = (5 ∷ [], 0) ∷ [];
  lru = record { nodes = (0, (5 ∷ [], 7)) ∷ []; fresh = 1 };
  capacity = 1;
}

full_shard-IsValid : IsValid full_shard
unfolding lookup address elem
full_shard-IsValid = record {
  sound = record { distinct = (refl, tt); bounded = (omega arith, tt) };
  unique = (refl, tt);
  index = λ k. refl;
}

shard_get-refines_example :
    IsValid (shard_get (5 ∷ []) full_shard).0
    × (view (shard_get (5 ∷ []) full_shard).0 ≡ spec_get (5 ∷ []) (view full_shard))
    × ((shard_get (5 ∷ []) full_shard).1 ≡ lookup (5 ∷ []) (view full_shard))
shard_get-refines_example = shard_get-refines (5 ∷ []) full_shard full_shard-IsValid

shard_set-refines_example :
    IsValid (shard_set (6 ∷ []) 8 full_shard)
    × (view (shard_set (6 ∷ []) 8 full_shard) ≡ spec_set 1 (6 ∷ []) 8 (view full_shard))
shard_set-refines_example = shard_set-refines (6 ∷ []) 8 full_shard full_shard-IsValid

abbrev cache : ProofCache ℕ
cache = full_shard ∷ []

abbrev leaves : List Hash
leaves = zeros 32 ∷ zeros 32 ∷ zeros 32 ∷ []

compute_merkle-binding_example : (leaves ≡ leaves) ⊎ Collision sum_hash
unfolding compute_merkle next_level sum_hash
compute_merkle-binding_example =
    compute_merkle-binding sum_hash (λ s. refl) 4 leaves leaves refl (refl, (refl, (refl, tt)))
      (refl, (refl, (refl, tt))) refl refl

serialize-Reordered_example :
    serialize host (dict (field (codes "a") (int 1) (field (codes "b") (int 2) end)))
    ≡ serialize host (dict (field (codes "b") (int 2) (field (codes "a") (int 1) end)))
serialize-Reordered_example = serialize-Reordered host (swap end (λ e. ground arith))
