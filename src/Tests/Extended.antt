-- ===== src/Tests/Extended.antt =====
-- The extended commands of internal/protocol/resp3/extended.go on concrete data.
use wavicle.Prelude.{
  ℕ, ◌+◌, ◌≤◌, ◌<◌, ◌^◌, ◌-◌, ◌↔◌, ◌≡◌, refl, ◌∙◌, arith, ltb, nat_eq, ◌==◌, bytes_eq, bytes_beq,
  Bytes, codes, elem, to_upper, none, some, List, [], ◌∷◌, ◌++◌, length, get_elem?, lookup, insert,
  atoi, trim_space, show_int, ℤ, pos, negsuc, add64, ◌+ℤ◌, IsInt64, inl, ok,
}
use wavicle.Core.{Value, Values, Atom, string, array, const}
use wavicle.Storage.Store.{frontier_store}
use wavicle.Storage.FrontierCache.{
  FrontierCache, new_frontier_cache, get_current, new_atom, append_atom, live_paths,
}
use wavicle.Storage.FrontierCache.Drop.{IsValid, new_frontier_cache-IsValid}
use wavicle.Storage.FrontierCache.Append.{IsUnder}
use wavicle.Storage.FrontierCache.Reads.{get_current-kept}
use wavicle.Server.State.{
  Server, string_key, list_key, key_type_of, assert_key_type, indexed, infer_from, visible, current,
  has_child,
}
use wavicle.Server.Commands.{integer}
use wavicle.Server.Commands.Mass.{array_header}
use wavicle.Server.Values.{
  Runtime, of_items, as_array, as_string, to_string, cur_value, stored, read_as, require_type,
  recover, given, window, range_start, from_end, elements_reply, int_reply,
}
use wavicle.Server.Extended.{handle_extended}
use wavicle.Server.Extended.Strings.{counter_command}
use wavicle.Server.Extended.Lists.{slice, push_command, lrange_command}
use wavicle.Server.Extended.Ranges.{AtMost, AtLeast, window-range}
use wavicle.Server.Extended.Pushed.{push_command-lrange_command}
use wavicle.Server.Extended.Counted.{counter_command-sum}
use wavicle.Server.Steps.Kept.{handle_extended-looks, handle_extended-IsValid}
use wavicle.Tests.{host}

-- Stand-ins for strconv and fmt: a float is its own text, in one byte.
abbrev pub runtime : Runtime
runtime = record {
  shortest = λ x. x ∷ [];
  parse_float = λ s. elim s [ [] ↦ none | c ∷ _ ↦ some c ];
  float_less = ltb;
  float_same = λ a b. a == b;
  sprint = λ v. [];
}

abbrev pub fresh_server : Server FrontierCache
fresh_server = record {
  store = new_frontier_cache 1000;
  proofs = [];
  proof_cache = [];
  key_types = [];
  stale_guard = record { slot = none; poll = none };
}

abbrev push_words : List Bytes
push_words = codes "rpush" ∷ codes "k" ∷ codes "a" ∷ []

handle_extended-IsValid_example :
    let t =
      (handle_extended runtime (codes "1s") (frontier_store host) 5 push_words fresh_server).0 in
    IsValid t.store
    × IsUnder host t.store
    × t.store.max_memory_bytes ≡ fresh_server.store.max_memory_bytes
    × t ≡ record fresh_server { store = t.store; key_types = t.key_types }
unfolding IsUnder new_frontier_cache
handle_extended-IsValid_example =
    handle_extended-IsValid host 5 runtime (codes "1s") push_words fresh_server
      (new_frontier_cache-IsValid 1000) (inl (omega arith)) (omega arith)

abbrev Limited : FrontierCache → Type 0
Limited f = f.max_memory_bytes ≡ 1000

get_current-Limited :
    (path : Bytes) (f : FrontierCache)
    → Limited f
    → Limited ((frontier_store host).get_current path 5 f).0
get_current-Limited path f e = (get_current-kept path 5 f).0 ∙ e

handle_extended-looks_example :
    let t =
      (handle_extended runtime
        (codes "1s")
        (frontier_store host)
        5
        (codes "lrange" ∷ codes "k" ∷ codes "0" ∷ codes "1" ∷ [])
        fresh_server).0 in
    Limited t.store × t ≡ record fresh_server { store = t.store }
unfolding to_upper elem bytes_beq new_frontier_cache
handle_extended-looks_example =
    handle_extended-looks (frontier_store host) 5 Limited get_current-Limited runtime (codes "1s")
      (codes "lrange") (codes "k" ∷ codes "0" ∷ codes "1" ∷ []) fresh_server refl refl

abbrev three_values : List Value
three_values = string (codes "a") ∷ string (codes "b") ∷ string (codes "c") ∷ []

abbrev three_numbers : List ℕ
three_numbers = 7 ∷ 8 ∷ 9 ∷ []

window-range_example :
    let low = range_start 3 (negsuc 1) in
    let ys = slice (window three_numbers (negsuc 1) (pos 9)) in
    ((i : ℕ) → i < length ys → get_elem? ys i ≡ get_elem? three_numbers (low + i))
    × ((k : ℕ)
        → k < 3
        → (low ≤ k × k < low + length ys)
          ↔ (AtMost (from_end 3 (negsuc 1)) k × AtLeast (from_end 3 (pos 9)) k))
window-range_example = window-range three_numbers (negsuc 1) (pos 9)

abbrev one_value : Values
one_value = of_items (string (codes "a") ∷ [])

abbrev pushed_store : FrontierCache
pushed_store =
    ((frontier_store host).append_atom (const (array one_value)) (codes "k") [] 0 5
      (new_frontier_cache 1000)).0

pub free_key :
    require_type (frontier_store host) 5 (codes "k") list_key fresh_server ≡ (fresh_server, ok tt)
unfolding require_type assert_key_type key_type_of indexed infer_from visible current lookup
    new_frontier_cache get_current has_child live_paths recover
free_key = refl

pub no_list :
    read_as (frontier_store host) 5 as_array (codes "k") fresh_server ≡ (fresh_server, ok none)
unfolding read_as cur_value stored given get_current new_frontier_cache lookup
no_list = refl

abbrev list_atom : Atom
list_atom = new_atom host (const (array one_value)) (codes "k") 0 5 1

list_found :
    (frontier_store host).get_current (codes "k") 6 pushed_store
    ≡ (((frontier_store host).get_current (codes "k") 6 pushed_store).0, some list_atom)
unfolding get_current append_atom new_frontier_cache lookup insert bytes_beq
list_found = refl

push_command-lrange_command_example :
    let r =
      push_command runtime
        (frontier_store host)
        5
        (codes "RPUSH")
        (codes "k" ∷ codes "a" ∷ [])
        fresh_server in
    (r.1 ≡ ok (integer 1))
    × (1 ≡ 0 + 1)
    × ((lrange_command runtime
          (frontier_store host)
          6
          (codes "k" ∷ codes "0" ∷ codes "-1" ∷ [])
          r.0).1
        ≡ ok (array_header 1 ++ elements_reply runtime (string (codes "a") ∷ [])))
unfolding bytes_beq new_atom
push_command-lrange_command_example =
    push_command-lrange_command runtime (frontier_store host) 5 6 (codes "RPUSH") (codes "k")
      (codes "a") [] fresh_server fresh_server fresh_server none list_atom
      ((frontier_store host).get_current (codes "k") 6 pushed_store).0 free_key no_list list_found
      refl

-- A server whose key k holds the greatest int64.
abbrev greatest : Bytes
greatest = codes "9223372036854775807"

abbrev counter_server : Server FrontierCache
counter_server = record fresh_server {
  store =
      ((frontier_store host).append_atom (const (string greatest)) (codes "k") [] 0 5
        (new_frontier_cache 1000)).0;
  key_types = (codes "k", string_key) ∷ [];
}

abbrev read_server : Server FrontierCache
read_server = record counter_server {
  store = ((frontier_store host).get_current (codes "k") 5 counter_server.store).0;
}

string_typed :
    require_type (frontier_store host) 5 (codes "k") string_key counter_server
    ≡ (counter_server, ok tt)
unfolding require_type assert_key_type key_type_of indexed lookup bytes_beq recover
string_typed = refl

string_read :
    read_as (frontier_store host) 5 (as_string runtime) (codes "k") counter_server
    ≡ (read_server, ok (some greatest))
unfolding read_as cur_value stored given get_current append_atom new_frontier_cache lookup insert
    bytes_beq new_atom to_string as_string
string_read = refl

one_read : atoi (codes "1") ≡ some (pos 1)
unfolding atoi
one_read = refl

greatest_read : atoi (trim_space greatest) ≡ some (pos (2 ^ 63 - 1))
unfolding atoi trim_space
greatest_read = refl

counter_command-sum_example :
    let n : ℤ = pos (2 ^ 63 - 1) in
    let r =
      counter_command runtime
        (frontier_store host)
        5
        (codes "INCRBY")
        (codes "k" ∷ codes "1" ∷ [])
        counter_server in
    (r.1 ≡ ok (int_reply (add64 n (pos 1))))
    × (r.0.store
        ≡ ((frontier_store host).append_atom
            (const (string (show_int (add64 n (pos 1)))))
            (codes "k")
            []
            0
            5
            read_server.store).0)
    × IsInt64 (add64 n (pos 1))
    × ((add64 n (pos 1) ≡ n +ℤ pos 1) ↔ IsInt64 (n +ℤ pos 1))
counter_command-sum_example =
    counter_command-sum runtime (frontier_store host) 5 (codes "k") (codes "1") greatest
      (pos (2 ^ 63 - 1)) (pos 1) counter_server counter_server read_server string_typed string_read
      one_read greatest_read
