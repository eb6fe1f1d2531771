-- ===== src/Tests/Commands.antt =====
-- readCommand and HandleCommand of internal/protocol/resp3/server.go on concrete data.
use wavicle.Prelude.{
  true, ◌+◌, ◌*◌, ◌^◌, ◌≤◌, ◌↔◌, has_prefix, lookup, insert, delete, false, ◌≡◌, refl, arith, codes,
  bytes_eq, bytes_beq, Bytes, elem, to_upper, Option, none, some, List, [], ◌∷◌, ok, err, pos,
  negsuc,
}
use wavicle.Core.{
  Hash, null, zeros, string, const, compute_hash, atom_text, big_endian, is_zero, serialize,
}
use wavicle.Storage.Store.{frontier_store}
use wavicle.Storage.FrontierCache.{
  FrontierCache, new_frontier_cache, new_atom, estimate_atom_bytes, expr_bytes, get_current,
  live_paths,
}
use wavicle.Storage.FrontierCache.Drop.{new_frontier_cache-IsValid}
use wavicle.Engine.ProofCache.{
  new_shard, get, put, shard_get, shard_set, make_room, push, fast_hash,
}
use wavicle.Replication.SlotMonitor.Guard.{blind, stale_refused, slot_refused}
use wavicle.Server.Reader.{read_command}
use wavicle.Server.Reader.RoundTrip.{command_of, read_command-command_of}
use wavicle.Server.State.{
  Server, stale, Command, string_key, assert_key_type, key_type_of, indexed, infer_from, visible,
  current, has_child,
}
use wavicle.Server.Commands.{ok_reply, bulk_string, query_hash, set_command, get_command}
use wavicle.Server.Commands.Reads.{Misses}
use wavicle.Server.Commands.RoundTrip.{Caches, set_command-get_command, set_command-get_cached}
use wavicle.Engine.Proof.{ProofNode}
use wavicle.Engine.Proof.Compose.{Proof}
use wavicle.Engine.Proof.Renewal.{leaf_proof}
use wavicle.Server.Commands.Dispatch.{handle_command}
use wavicle.Server.Commands.Stale.{handle_command-stale}
use wavicle.Server.Commands.{duration, add_time}
use wavicle.Server.Commands.Expiry.{add_time-duration_iff}
use wavicle.Tests.{host, checksum, sum_hash}

abbrev set_words : List Bytes
set_words = codes "SET" ∷ codes "k" ∷ (13 ∷ 10 ∷ []) ∷ []

read_command-command_of_example :
    read_command (command_of set_words (codes "PING")) ≡ ok (set_words, codes "PING")
read_command-command_of_example =
    read_command-command_of set_words (codes "PING") (omega arith) (omega arith)
      (omega arith, (omega arith, (omega arith, tt)))

-- A server whose replication slot is gone.
abbrev blind_server : Server FrontierCache
blind_server = record {
  store = new_frontier_cache 1000;
  proofs = [];
  proof_cache = new_shard 10 ∷ [];
  key_types = [];
  stale_guard = record { slot = some (negsuc 1, pos 1000); poll = none };
}

-- Stand-ins for the SQL queries and the extended commands, of which the server has none.
abbrev no_select : Bytes → Command FrontierCache (Bytes × Option Bytes)
no_select path s = (s, ok (path, none))

abbrev no_extended : List Bytes → Command FrontierCache (Option Bytes)
no_extended args s = (s, ok none)

handle_command-stale_example :
    handle_command host checksum
      (serialize host)
      (frontier_store host)
      9
      30
      no_select
      no_extended
      (codes "get" ∷ codes "k" ∷ [])
      blind_server
    ≡ (blind_server, err (stale blind))
unfolding stale_refused slot_refused bytes_beq elem to_upper
handle_command-stale_example =
    handle_command-stale host checksum (serialize host) (frontier_store host) 9 30 no_select
      no_extended (codes "get") (codes "k" ∷ []) blind_server blind refl refl

-- A server that has just started, with no guard.
abbrev new_server : Server FrontierCache
new_server = record {
  store = new_frontier_cache 1000;
  proofs = [];
  proof_cache = new_shard 10 ∷ [];
  key_types = [];
  stale_guard = record { slot = none; poll = none };
}

no_proof_yet :
    Misses
      (query_hash host checksum (serialize host) (frontier_store host) 1 9 (codes "k"))
      0
      new_server.proof_cache
unfolding get put shard_get shard_set make_room push new_shard query_hash sum_hash fast_hash lookup
    insert delete
no_proof_yet = record { after = _; missed = refl; taken = refl }

unguarded : stale_refused new_server.stale_guard 9 ≡ none
unfolding stale_refused
unguarded = refl

key_is_free : (assert_key_type (frontier_store host) 1 (codes "k") string_key new_server).1 ≡ ok tt
unfolding assert_key_type key_type_of indexed infer_from visible current lookup new_frontier_cache
    get_current has_child live_paths
key_is_free = refl

hash_not_zero : is_zero (new_atom host (const (string (codes "v"))) (codes "k") 0 1 1).hash ≡ false
unfolding new_atom compute_hash checksum sum_hash is_zero bytes_beq atom_text big_endian
hash_not_zero = refl

set_command-get_command_example :
    let r =
      set_command host checksum
        (serialize host)
        (frontier_store host)
        1
        1
        (codes "k" ∷ codes "v" ∷ [])
        new_server in
    (r.1 ≡ ok ok_reply)
    × ((get_command host checksum
          (serialize host)
          (frontier_store host)
          1
          9
          no_select
          (codes "k" ∷ [])
          r.0).1
        ≡ ok (bulk_string (codes "v")))
unfolding new_frontier_cache estimate_atom_bytes expr_bytes new_atom bytes_beq to_upper has_prefix
    serialize
set_command-get_command_example =
    set_command-get_command host checksum (serialize host) 0 (codes "k") (codes "v") 1 9 new_server
      no_select (new_frontier_cache-IsValid 1000) (omega arith) key_is_free refl refl (omega arith)
      hash_not_zero no_proof_yet unguarded refl

add_time-duration_iff_example : (add_time 5 (duration 60) ≡ 5 + 60 * 10 ^ 9) ↔ (60 ≤ 9223372036)
add_time-duration_iff_example = add_time-duration_iff 5 60

-- A node and a proof of an older value of `k`, made when the path had the zero hash.
abbrev old_node : ProofNode
old_node = record {
  expr = const null;
  children = [];
  parent = none;
  cached_value = some null;
  dirty = false;
  merkle_root = zeros 32;
  merkle_valid = true;
  source_hash = zeros 32;
  source_path = codes "k";
}

abbrev old_proof : Proof
old_proof = leaf_proof (codes "k") (zeros 32) old_node (record {
  query_path = codes "k";
  mode = 0;
  value = null;
  value_hash = zeros 32;
  version_vector = [];
  merkle_root = zeros 32;
  path_to_node = [];
  proof_tree = const null;
  root_node = 0;
  nodes = [];
  access_count = 0;
  last_verified_at = 0;
})

abbrev key_of_k : Hash
key_of_k = query_hash host checksum (serialize host) (frontier_store host) 1 9 (codes "k")

-- The server with that proof in its cache.
abbrev used_server : Server FrontierCache
used_server = record new_server {
  proofs = old_proof ∷ [];
  proof_cache = shard_set key_of_k 0 (new_shard 10) ∷ [];
}

old_proof_cached : Caches (codes "k") key_of_k used_server.proofs used_server.proof_cache
unfolding get shard_get shard_set make_room push new_shard query_hash sum_hash fast_hash lookup
    insert delete bytes_beq
old_proof_cached = record {
  after_get = _;
  element = 0;
  made = zeros 32;
  node = old_node;
  proof = old_proof;
  hit = refl;
  here = refl;
}

still_free : (assert_key_type (frontier_store host) 1 (codes "k") string_key used_server).1 ≡ ok tt
unfolding assert_key_type key_type_of indexed infer_from visible current lookup new_frontier_cache
    get_current has_child live_paths
still_free = refl

set_command-get_cached_example :
    let r =
      set_command host checksum
        (serialize host)
        (frontier_store host)
        1
        1
        (codes "k" ∷ codes "v" ∷ [])
        used_server in
    (r.1 ≡ ok ok_reply)
    × ((get_command host checksum
          (serialize host)
          (frontier_store host)
          1
          9
          no_select
          (codes "k" ∷ [])
          r.0).1
        ≡ ok (bulk_string (codes "v")))
unfolding new_frontier_cache estimate_atom_bytes expr_bytes new_atom bytes_beq to_upper has_prefix
    serialize is_zero old_proof_cached
set_command-get_cached_example =
    set_command-get_cached host checksum (serialize host) 0 (codes "k") (codes "v") 1 9 used_server
      no_select old_proof_cached (new_frontier_cache-IsValid 1000) (omega arith) still_free refl
      refl (omega arith) hash_not_zero hash_not_zero unguarded refl
