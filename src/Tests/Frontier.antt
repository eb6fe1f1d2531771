-- ===== src/Tests/Frontier.antt =====
-- internal/storage/frontier_cache.go on an empty cache and on one with an entry.
use wavicle.Prelude.{
  suc, Bytes, codes, bytes_eq, nat_eq, ◌≡◌, ◌↔◌, refl, none, insert, delete, bytes_beq, arith, true,
  some, [], ◌∷◌, All, lookup,
}
use wavicle.Core.{Hash, Expr, const, string, zeros, compute_hash, atom_text, big_endian}
use wavicle.Storage.FrontierCache.{
  FrontierCache, new_frontier_cache, new_atom, append_atom, get_current_hash, verify_version_vector,
  find_changed_paths, sweep,
}
use wavicle.Storage.FrontierCache.Drop.{IsValid, new_frontier_cache-IsValid}
use wavicle.Storage.FrontierCache.Append.{IsUnder, append_atom-IsValid, append_atom-limit}
use wavicle.Storage.FrontierCache.Hashes.{
  IsIndexed, new_frontier_cache-Indexed, append_atom-Indexed,
}
use wavicle.Storage.FrontierCache.Reads.{verify_version_vector_iff}
use wavicle.Storage.FrontierCache.Sweep.{spared, sweep-IsValid}
use wavicle.Tests.{host, sum_hash, checksum}

abbrev hello : Expr
hello = const (string (codes "hello"))

abbrev small : FrontierCache
small = new_frontier_cache 1000

-- The cache after one write of `hello` under `k`, which expires at time 5.
abbrev filled : FrontierCache
filled = (append_atom host hello (codes "k") 5 1 small).0

filled_facts : IsValid filled × IsUnder host filled × filled.clock ≡ suc small.clock
unfolding new_frontier_cache
filled_facts =
    append_atom-IsValid host hello (codes "k") 5 1 small (new_frontier_cache-IsValid 1000)
      (omega arith)

filled_Indexed : IsIndexed filled.entries filled.hash_to_path
unfolding new_frontier_cache lookup
filled_Indexed =
    (append_atom-Indexed host hello (codes "k") 5 1 small (new_frontier_cache-IsValid 1000)
      (new_frontier_cache-Indexed 1000) (omega arith) refl).1

-- The second write of the same path, over the first one.
abbrev rewritten : FrontierCache
rewritten = (append_atom host hello (codes "k") 0 2 filled).0

filled_limit : filled.max_memory_bytes ≡ 1000
unfolding new_frontier_cache
filled_limit = append_atom-limit host hello (codes "k") 5 1 small

other_hash :
    lookup (new_atom host hello (codes "k") 0 2 (suc filled.clock)).hash filled.hash_to_path ≡ none
unfolding new_frontier_cache append_atom new_atom compute_hash sum_hash checksum atom_text
    big_endian lookup bytes_beq insert delete
other_hash = refl

append_atom-Indexed_example :
    IsValid rewritten
    × IsIndexed rewritten.entries rewritten.hash_to_path
    × IsUnder host rewritten
    × rewritten.clock ≡ suc filled.clock
append_atom-Indexed_example =
    append_atom-Indexed host hello (codes "k") 0 2 filled filled_facts.0 filled_Indexed
      (omega (arith, filled_limit)) other_hash

verify_version_vector_iff_example :
    ((verify_version_vector ((codes "k", zeros 32) ∷ []) 2 filled ≡ true)
      ↔ All
          (λ (entry : Bytes × Hash). get_current_hash entry.0 2 filled ≡ some entry.1)
          ((codes "k", zeros 32) ∷ []))
    × ((verify_version_vector ((codes "k", zeros 32) ∷ []) 2 filled ≡ true)
        ↔ (find_changed_paths ((codes "k", zeros 32) ∷ []) 2 filled ≡ []))
verify_version_vector_iff_example = verify_version_vector_iff ((codes "k", zeros 32) ∷ []) 2 filled

sweep-IsValid_example :
    IsValid (sweep ((codes "k", zeros 32) ∷ []) filled)
    × ((q : Bytes)
        → lookup q (sweep ((codes "k", zeros 32) ∷ []) filled).entries
          ≡ spared q ((codes "k", zeros 32) ∷ []) (lookup q filled.entries))
sweep-IsValid_example = sweep-IsValid ((codes "k", zeros 32) ∷ []) filled filled_facts.0
