-- ===== src/Tests/Engine.antt =====
-- Proofs, combinators, the slot monitor, the hash ring and SQL queries on concrete data.
use wavicle.Prelude.{
  inl, has_prefix, to_upper, Bytes, ◌⊎◌, ◌≡◌, refl, ◌↔◌, arith, true, false, codes, some, [], ◌∷◌,
  ok, pos, none, bytes_eq, bytes_beq, ◌==◌, err,
}
use wavicle.Core.{
  const, string, null, Value, zeros, Atom, compute_hash, is_zero, atom_text, big_endian,
}
use wavicle.Fidelity.{mode_deductive}
use wavicle.Storage.Store.{frontier_store}
use wavicle.Storage.FrontierCache.{
  new_frontier_cache, append_atom, FrontierCache, new_atom, estimate_atom_bytes, expr_bytes,
  expired,
}
use wavicle.Storage.FrontierCache.Drop.{IsValid, new_frontier_cache-IsValid}
use wavicle.Storage.FrontierCache.Append.{append_atom-IsValid, append_atom-entry}
use wavicle.Engine.Proof.{ProofNode, no_work}
use wavicle.Engine.Proof.Compose.{Proof, compose_proof}
use wavicle.Engine.Proof.Incremental.{reduce_incremental}
use wavicle.Engine.Proof.Renewal.{leaf_proof, reduce_incremental-const}
use wavicle.Engine.Proof.Fresh.{Holds, frontier_store-Shows, compose_proof-append_atom}
use wavicle.Replication.SlotMonitor.{
  SlotQuery, SlotMonitorConfig, SlotMonitor, slot_page, check_once,
}
use wavicle.Replication.SlotMonitor.Guard.{Measured, refuses, slot_guard, check_once-refuses_iff}
use wavicle.Engine.Combinators.{unfinished, apply_combinator}
use wavicle.Engine.Combinators.Laws.{
  i_combinator, s_combinator, apply2, self_application, apply_combinator_diverges,
}
use wavicle.Cluster.HashRing.{HashRing, new_hash_ring, add, route}
use wavicle.Cluster.HashRing.Sorting.{Sorted}
use wavicle.Cluster.HashRing.Routing.{add-route}
use wavicle.Engine.Sql.{out_of_range, index_of, sql_to_proof_tree}
use wavicle.Engine.Sql.Crash.{sql_to_proof_tree-panics}
use wavicle.Tests.{host, checksum, sum_hash}

abbrev shared_config : SlotMonitorConfig
shared_config = record {
  interval = 15;
  warn_bytes = pos 100;
  page_bytes = pos 1000;
  is_shared = true;
}

abbrev behind : SlotQuery
behind = ok (some (record { active = true; lag_bytes = pos 1000 }))

abbrev quiet : SlotMonitor
quiet = record { state = pos 0; last_page = 0 }

check_once-refuses_iff_example :
    (refuses (slot_guard shared_config (check_once shared_config behind 20 quiet).0) 30 ≡ true)
    ↔ ((check_once shared_config behind 20 quiet).1 ≡ slot_page)
unfolding Measured
check_once-refuses_iff_example =
    check_once-refuses_iff shared_config behind 20 30 quiet refl (1000, refl)

abbrev hello : Value
hello = string (codes "hello")

abbrev store : FrontierCache
store = new_frontier_cache 1000

abbrev written : FrontierCache
written = (append_atom host (const hello) (codes "k") 50 1 store).0

compose_proof-append_atom_example :
    let r =
      compose_proof host checksum
        (frontier_store host)
        9
        1
        (codes "k")
        mode_deductive
        (no_work written) in
    (proof : Proof) × (r.0 ≡ ok proof) × (proof.value ≡ hello) × IsValid r.1.store
unfolding new_frontier_cache estimate_atom_bytes expr_bytes new_atom expired compute_hash checksum
    sum_hash is_zero bytes_beq atom_text big_endian
compose_proof-append_atom_example =
    compose_proof-append_atom host checksum (codes "k") refl hello 50 1 9 store 0 mode_deductive
      (new_frontier_cache-IsValid 1000) (omega arith) (omega arith) refl refl

abbrev hello_atom : Atom
hello_atom = new_atom host (const hello) (codes "k") 50 1 1

written-Holds : Holds (codes "k") hello_atom written
unfolding new_frontier_cache estimate_atom_bytes expr_bytes new_atom
written-Holds = (
  (append_atom-IsValid host (const hello) (codes "k") 50 1 store (new_frontier_cache-IsValid 1000)
      (omega arith)).0,
  append_atom-entry host (const hello) (codes "k") 50 1 store (new_frontier_cache-IsValid 1000)
      (omega arith),
)

-- A proof of an older value, made when the path had the zero hash.
abbrev node : ProofNode
node = record {
  expr = const null;
  children = [];
  parent = none;
  cached_value = some null;
  dirty = false;
  merkle_root = zeros 32;
  merkle_valid = true;
  source_hash = zeros 32;
  source_path = codes "k";
}

abbrev old_proof : Proof
old_proof = record {
  query_path = codes "k";
  mode = mode_deductive;
  value = null;
  value_hash = zeros 32;
  version_vector = [];
  merkle_root = zeros 32;
  path_to_node = [];
  proof_tree = const null;
  root_node = 0;
  nodes = [];
  access_count = 0;
  last_verified_at = 0;
}

not_zero : is_zero hello_atom.hash ≡ false
unfolding new_atom compute_hash checksum sum_hash is_zero bytes_beq atom_text big_endian
not_zero = refl

unexpired_at_9 : expired 9 hello_atom ≡ false
unfolding expired new_atom
unexpired_at_9 = refl

differs : (hello_atom.hash == zeros 32) ≡ false
unfolding is_zero
differs = not_zero

reduce_incremental-const_example :
    let r =
      reduce_incremental host checksum
        (frontier_store host)
        9
        1
        (leaf_proof (codes "k") (zeros 32) node old_proof)
        written in
    (r.result ≡ ok hello)
    × (r.proof.value ≡ hello)
    × (r.proof.version_vector ≡ (codes "k", hello_atom.hash) ∷ [])
    × Holds (codes "k") hello_atom r.store
unfolding new_atom bytes_beq
reduce_incremental-const_example =
    reduce_incremental-const host checksum (frontier_store host) 9 (codes "k") hello_atom
      (Holds (codes "k") hello_atom)
      (frontier_store-Shows host 9 (codes "k") hello_atom unexpired_at_9) hello refl refl (zeros 32)
      node old_proof written 0 not_zero (λ h. ground (arith, differs)) written-Holds

apply_combinator_diverges_example :
    (apply2 1 s_combinator i_combinator i_combinator ≡ ok self_application)
    × (apply_combinator 0 self_application self_application ≡ err unfinished)
apply_combinator_diverges_example = apply_combinator_diverges 0

abbrev ring : HashRing
ring = new_hash_ring 3

-- The ring with the node `b`.
abbrev peopled : HashRing
peopled = add checksum (codes "b") ring

peopled-Sorted : Sorted peopled.keys
unfolding new_hash_ring Sorted
peopled-Sorted = let (sorted, _) = add-route checksum (codes "b") ring tt in sorted

add-route_example :
    Sorted (add checksum (codes "a") peopled).keys
    × ((key : Bytes)
        → (route checksum key (add checksum (codes "a") peopled) ≡ route checksum key peopled)
          ⊎ (route checksum key (add checksum (codes "a") peopled) ≡ codes "a"))
add-route_example = add-route checksum (codes "a") peopled peopled-Sorted

sql_to_proof_tree-panics_example :
    sql_to_proof_tree (frontier_store host) 9 (codes "selectfrom where") written
    ≡ (written, err out_of_range)
unfolding index_of has_prefix to_upper
sql_to_proof_tree-panics_example =
    sql_to_proof_tree-panics (frontier_store host) 9 (codes "selectfrom where") written 6 11 refl
      refl refl (inl (omega arith))
