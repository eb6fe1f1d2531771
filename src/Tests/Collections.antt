-- ===== src/Tests/Collections.antt =====
-- The commands on sets and streams, and the index of types, of internal/protocol/resp3/extended.go on
-- concrete data.
use wavicle.Prelude.{
  ℕ, ◌+◌, ◌≡◌, refl, nat_eq, if◌then◌else◌, ◌==◌, bytes_eq, bytes_beq, Bytes, codes, ◌||◌, Dict,
  ◌&&◌, not, elem, none, some, List, [], ◌∷◌, ◌++◌, length, keys, lookup, insert, is_some, Distinct,
  atoi, inl, ok,
}
use wavicle.Core.{Value, null, Values, Atom, int, string, array, dict, const}
use wavicle.Storage.Store.{frontier_store}
use wavicle.Storage.FrontierCache.{
  FrontierCache, new_frontier_cache, get_current, new_atom, append_atom, live_paths,
}
use wavicle.Server.State.{
  Server, list_key, set_key, stream_key, key_type_of, assert_key_type, indexed, infer_from, visible,
  current, has_child, type_of_value,
}
use wavicle.Server.Commands.{integer, bulk_string}
use wavicle.Server.Values.{
  of_items, of_entries, as_array, cur_value, stored, read_as, require_type, recover, given,
}
use wavicle.Server.Extended.Lists.{push_command}
use wavicle.Server.Extended.Sets.{as_set, sadd_command, srem_command}
use wavicle.Server.Extended.Streams.{parse_stream_id, split_dash, xadd_command, xrange_command}
use wavicle.Server.Extended.Members.{sadd_command-members, srem_command-members}
use wavicle.Server.Extended.Indexing.{Puts, type_of_value-index}
use wavicle.Server.Extended.StreamIds.{entry_of, xadd_command-xrange_command}
use wavicle.Tests.{host}
use wavicle.Tests.Extended.{runtime, fresh_server, free_key, no_list}

-- A free key may hold a set and a stream, too, and is read as none.
free_set :
    require_type (frontier_store host) 5 (codes "k") set_key fresh_server ≡ (fresh_server, ok tt)
unfolding require_type assert_key_type key_type_of indexed infer_from visible current lookup
    new_frontier_cache get_current has_child live_paths recover
free_set = refl

free_stream :
    require_type (frontier_store host) 5 (codes "k") stream_key fresh_server ≡ (fresh_server, ok tt)
unfolding require_type assert_key_type key_type_of indexed infer_from visible current lookup
    new_frontier_cache get_current has_child live_paths recover
free_stream = refl

no_set : read_as (frontier_store host) 5 as_set (codes "k") fresh_server ≡ (fresh_server, ok none)
unfolding read_as cur_value stored given get_current new_frontier_cache lookup
no_set = refl

parsed_id : parse_stream_id (codes "5-1") ≡ some (5, 1)
unfolding parse_stream_id split_dash atoi
parsed_id = refl

type_of_value-index_example :
    Puts runtime
      (frontier_store host)
      5
      list_key
      (codes "k")
      fresh_server
      (push_command runtime
        (frontier_store host)
        5
        (codes "LPUSH")
        (codes "k" ∷ codes "a" ∷ [])
        fresh_server).0
    × Puts runtime
        (frontier_store host)
        5
        set_key
        (codes "k")
        fresh_server
        (sadd_command (frontier_store host) 5 (codes "k" ∷ codes "a" ∷ []) fresh_server).0
    × Puts runtime
        (frontier_store host)
        5
        stream_key
        (codes "k")
        fresh_server
        (xadd_command runtime
          (frontier_store host)
          5
          (codes "k" ∷ codes "5-1" ∷ codes "f" ∷ codes "v" ∷ [])
          fresh_server).0
unfolding bytes_beq type_of_value of_items
type_of_value-index_example =
    type_of_value-index runtime (frontier_store host) 5 (codes "LPUSH") (codes "k") (codes "a")
      (codes "5-1") (codes "f") (codes "v") [] [] (5, 1) fresh_server fresh_server fresh_server
      fresh_server fresh_server fresh_server none none none (fresh_server, free_key, no_list) refl
      (fresh_server, free_set, no_set) tt (fresh_server, free_stream, no_list) (inl refl) refl
      parsed_id refl

-- A server whose key k holds the set of `a`.
abbrev one_member : Dict Bytes Value
one_member = (codes "a", int 1) ∷ []

abbrev set_server : Server FrontierCache
set_server = record fresh_server {
  store =
      ((frontier_store host).append_atom (const (dict (of_entries one_member))) (codes "k") [] 0 4
        (new_frontier_cache 1000)).0;
  key_types = (codes "k", set_key) ∷ [];
}

abbrev read_set_server : Server FrontierCache
read_set_server = record set_server {
  store = ((frontier_store host).get_current (codes "k") 5 set_server.store).0;
}

set_typed :
    require_type (frontier_store host) 5 (codes "k") set_key set_server ≡ (set_server, ok tt)
unfolding require_type assert_key_type key_type_of indexed lookup bytes_beq recover
set_typed = refl

set_read :
    read_as (frontier_store host) 5 as_set (codes "k") set_server
    ≡ (read_set_server, ok (some one_member))
unfolding read_as cur_value stored given get_current append_atom new_frontier_cache lookup insert
    bytes_beq new_atom as_set of_entries
set_read = refl

sadd_command-members_example :
    let r =
      sadd_command (frontier_store host) 5 (codes "k" ∷ codes "a" ∷ codes "b" ∷ []) set_server in
    (m : Dict Bytes Value) × (n : ℕ) × (r.1 ≡ ok (integer n))
    × (length m ≡ 1 + n)
    × (r.0.store
        ≡ ((frontier_store host).append_atom
            (const (dict (of_entries m)))
            (codes "k")
            []
            0
            5
            read_set_server.store).0)
    × (lookup (codes "k") r.0.key_types ≡ some set_key)
    × Distinct (keys m)
    × ((j : Bytes)
        → is_some (lookup j m)
          ≡ (elem j (codes "a" ∷ codes "b" ∷ []) || is_some (lookup j one_member)))
unfolding elem
sadd_command-members_example =
    sadd_command-members (frontier_store host) 5 (codes "k") (codes "a") (codes "b" ∷ []) set_server
      set_server read_set_server (some one_member) set_typed set_read (refl, tt)

srem_command-members_example :
    let r = srem_command (frontier_store host) 5 (codes "k" ∷ codes "a" ∷ []) set_server in
    (left : Dict Bytes Value) × (n : ℕ) × (r.1 ≡ ok (integer n))
    × (1 ≡ length left + n)
    × (r.0.store
        ≡ ((frontier_store host).append_atom
            (const (if length left == 0 then null else dict (of_entries left)))
            (codes "k")
            []
            0
            5
            read_set_server.store).0)
    × (lookup (codes "k") r.0.key_types
        ≡ (if length left == 0 then none else lookup (codes "k") read_set_server.key_types))
    × Distinct (keys left)
    × ((j : Bytes)
        → is_some (lookup j left)
          ≡ (not (elem j (codes "a" ∷ [])) && is_some (lookup j one_member)))
unfolding elem
srem_command-members_example =
    srem_command-members (frontier_store host) 5 (codes "k") (codes "a") [] set_server set_server
      read_set_server one_member set_typed set_read (refl, tt)

-- A server whose key k holds a stream of one entry, and what XADD appends to it.
abbrev one_entry : List Value
one_entry = dict (of_entries ((codes "_id", string (codes "1-1")) ∷ [])) ∷ []

abbrev stream_server : Server FrontierCache
stream_server = record fresh_server {
  store =
      ((frontier_store host).append_atom (const (array (of_items one_entry))) (codes "k") [] 0 4
        (new_frontier_cache 1000)).0;
  key_types = (codes "k", stream_key) ∷ [];
}

abbrev seen_server : ℕ → Server FrontierCache
seen_server now = record stream_server {
  store = ((frontier_store host).get_current (codes "k") now stream_server.store).0;
}

stream_typed :
    require_type (frontier_store host) 5 (codes "k") stream_key stream_server
    ≡ (stream_server, ok tt)
unfolding require_type assert_key_type key_type_of indexed lookup bytes_beq recover
stream_typed = refl

stream_read :
    (read_as (frontier_store host) 5 as_array (codes "k") stream_server
      ≡ (seen_server 5, ok (some one_entry)))
    × (read_as (frontier_store host) 6 as_array (codes "k") stream_server
        ≡ (seen_server 6, ok (some one_entry)))
unfolding read_as cur_value stored given get_current append_atom new_frontier_cache lookup insert
    bytes_beq new_atom as_array of_items
stream_read = (refl, refl)

abbrev two_entries : Values
two_entries = of_items (
    one_entry ++ entry_of (codes "5-1") (codes "f" ∷ codes "v" ∷ codes "_id" ∷ codes "x" ∷ []) ∷ [])

abbrev two_store : FrontierCache
two_store =
    ((frontier_store host).append_atom (const (array two_entries)) (codes "k") [] 0 5
      (seen_server 5).store).0

abbrev two_atom : Atom
two_atom = new_atom host (const (array two_entries)) (codes "k") 0 5 2

two_found :
    (frontier_store host).get_current (codes "k") 6 two_store
    ≡ (((frontier_store host).get_current (codes "k") 6 two_store).0, some two_atom)
unfolding get_current append_atom new_frontier_cache lookup insert bytes_beq
two_found = refl

not_an_id : parse_stream_id (codes "x") ≡ none
unfolding parse_stream_id split_dash
not_an_id = refl

xadd_command-xrange_command_example :
    let r =
      xadd_command runtime
        (frontier_store host)
        5
        (codes "k" ∷ codes "5-1" ∷ codes "f" ∷ codes "v" ∷ codes "_id" ∷ codes "x" ∷ [])
        stream_server in
    (r.1 ≡ ok (bulk_string (codes "5-1")))
    × ((xrange_command runtime
          (frontier_store host)
          6
          (codes "k" ∷ codes "-" ∷ codes "+" ∷ [])
          r.0).1
        ≡ (xrange_command runtime
            (frontier_store host)
            6
            (codes "k" ∷ codes "-" ∷ codes "+" ∷ [])
            stream_server).1)
unfolding bytes_beq new_atom
xadd_command-xrange_command_example =
    xadd_command-xrange_command runtime (frontier_store host) 5 6 (codes "k") (codes "5-1")
      (codes "x") (codes "-") (codes "+") (codes "f" ∷ codes "v" ∷ []) (5, 1) one_entry
      stream_server stream_server (seen_server 5) (seen_server 6) two_atom
      ((frontier_store host).get_current (codes "k") 6 two_store).0 stream_typed stream_read.0
      stream_read.1 refl parsed_id refl not_an_id two_found refl
