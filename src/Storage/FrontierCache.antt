-- ===== src/Storage/FrontierCache.antt =====
-- internal/storage/frontier_cache.go: the production cache of the latest atom of each path, with
-- expiry and a memory ceiling kept by least-recently-used eviction. A method that reads the clock
-- takes the time as `now`; the subtractions of sizes stop at 0, and the invariant shows that the
-- sizes taken off were counted before.
pub mod Recency
pub mod Drop
pub mod Ceiling
pub mod Append
pub mod Reads
pub mod Sweep
pub mod Hashes
use wavicle.Prelude.{
  ℕ, zero, suc, ◌+◌, ◌-◌, Bytes, Bool, true, false, ◌&&◌, ◌||◌, not, ltb, leb, ◌==◌, nat_eq,
  bytes_eq, if◌then◌else◌, Option, none, some, List, [], ◌∷◌, length, Dict, lookup, insert, delete,
  Linked, push_front, remove, move_to_front, back, no_nodes,
}
use wavicle.Core.{Hash, Value, Expr, Atom, Time, Platform, compute_hash, zeros}

pub record FrontierCache : Type 0 where
  pub entries : Dict Bytes Atom
  pub hash_to_path : Dict Hash Bytes
  pub clock : ℕ
  pub max_memory_bytes : ℕ
  pub current_bytes : ℕ
  pub lru_list : Linked Bytes
  pub lru_nodes : Dict Bytes ℕ

-- NewFrontierCacheWithLimit; a limit of 0 or below stands for 4 GB
unfoldable pub new_frontier_cache : ℕ → FrontierCache
new_frontier_cache limit = record {
  entries = [];
  hash_to_path = [];
  clock = 0;
  max_memory_bytes = if limit == 0 then 4294967296 else limit;
  current_bytes = 0;
  lru_list = no_nodes;
  lru_nodes = [];
}

-- the size of an expression in estimateAtomBytes
unfoldable pub expr_bytes : Expr → ℕ
expr_bytes (Expr.const (Value.string s)) = 16 + length s
expr_bytes (Expr.const (Value.bytes s)) = 24 + length s
expr_bytes (Expr.const _) = 16
expr_bytes _ = 48

-- estimateAtomBytes
unfoldable pub estimate_atom_bytes : Bytes → Atom → ℕ
unfolding expr_bytes
estimate_atom_bytes path a = 220 + length path + expr_bytes a.expr

-- `!atom.ExpiresAt.IsZero() && atom.ExpiresAt.Before(now)`
unfoldable pub expired : Time → Atom → Bool
expired now a = not (a.expires_at == 0) && ltb a.expires_at now

-- `if elem, exists := f.lruNodes[path]; exists { f.lruList.Remove(elem); delete(...) }`
unfoldable pub unlink : Bytes → FrontierCache → FrontierCache
unlink path f = elim (lookup path f.lru_nodes) [
  | none ↦ f
  | some e ↦ record f { lru_list = remove e f.lru_list; lru_nodes = delete path f.lru_nodes }
]

-- the first part of AppendAtom: what it takes off for an atom that is there
unfoldable pub forget_old : Bytes → FrontierCache → FrontierCache
unfolding unlink estimate_atom_bytes
forget_old path f = elim (lookup path f.entries) [
  | none ↦ f
  | some old ↦ unlink path (record f {
    hash_to_path = delete old.hash f.hash_to_path;
    current_bytes = f.current_bytes - estimate_atom_bytes path old;
  })
]

-- the new atom enters the maps and the front of the list
unfoldable pub store_atom : Bytes → Atom → FrontierCache → FrontierCache
unfolding estimate_atom_bytes
store_atom path a f = record f {
  entries = insert path a f.entries;
  hash_to_path = insert a.hash path f.hash_to_path;
  current_bytes = f.current_bytes + estimate_atom_bytes path a;
  lru_list = push_front path f.lru_list;
  lru_nodes = insert path f.lru_list.fresh f.lru_nodes;
}

-- one round of the eviction loop, on the back element
unfoldable pub evict_back : ℕ → Bytes → FrontierCache → FrontierCache
unfolding estimate_atom_bytes
evict_back e path f =
    let g = record f { lru_list = remove e f.lru_list; lru_nodes = delete path f.lru_nodes } in
    elim (lookup path f.entries) [
      | none ↦ g
      | some a ↦ record g {
        hash_to_path = delete a.hash f.hash_to_path;
        entries = delete path f.entries;
        current_bytes = f.current_bytes - estimate_atom_bytes path a;
      }
    ]

-- the eviction loop; each round removes an element, so the list's length is enough fuel
unfoldable pub evict_loop : ℕ → ℕ → FrontierCache → FrontierCache
unfolding evict_back
evict_loop zero target f = f
evict_loop (suc fuel) target f = elim (ltb target f.current_bytes) [
  | false ↦ f
  | true ↦ elim (back f.lru_list.nodes) [
    | none ↦ f
    | some (e, path) ↦ evict_loop fuel target (evict_back e path f)
  ]
]

module _ (os : Platform) where
  -- the ceiling: at 90% of the limit, down to 80%
  unfoldable pub enforce_ceiling : FrontierCache → FrontierCache
  unfolding evict_loop
  enforce_ceiling f =
      if ltb 0 f.max_memory_bytes && leb (os.ninety_percent f.max_memory_bytes) f.current_bytes
      then evict_loop (length f.lru_list.nodes) (os.eighty_percent f.max_memory_bytes) f
      else f

  abbrev draft : Expr → Bytes → Time → Time → ℕ → Atom
  draft expr path expires_at now clock = record {
    hash = zeros 32;
    expr = expr;
    causal_past = [];
    causal_depth = 0;
    logical_clock = clock;
    physical_time = now;
    nonce = zeros 16;
    branch_id = zeros 16;
    path = path;
    expires_at = expires_at;
  }

  -- the atom that AppendAtom makes at clock value `clock`
  unfoldable pub new_atom : Expr → Bytes → Time → Time → ℕ → Atom
  unfolding compute_hash
  new_atom expr path expires_at now clock =
      let a = draft expr path expires_at now clock in record a { hash = compute_hash os a }

  -- AppendAtom; the parents are not kept. The clock is 64 bits wide.
  unfoldable pub append_atom : Expr → Bytes → Time → Time → FrontierCache → FrontierCache × Hash
  unfolding forget_old store_atom enforce_ceiling new_atom
  append_atom expr path expires_at now f =
      let a = new_atom expr path expires_at now (suc f.clock) in
      (
        enforce_ceiling (store_atom path a (record (forget_old path f) { clock = suc f.clock })),
        a.hash,
      )

-- GetCurrent
unfoldable pub get_current : Bytes → Time → FrontierCache → FrontierCache × Option Atom
unfolding expired
get_current path now f = elim (lookup path f.entries) [
  | none ↦ (f, none)
  | some a ↦ if expired now a then (f, none) else elim (lookup path f.lru_nodes) [
    | none ↦ (f, some a)
    | some e ↦ (record f { lru_list = move_to_front e f.lru_list }, some a)
  ]
]

unfoldable pub unexpired : Time → Option Atom → Option Atom
unfolding expired
unexpired now none = none
unexpired now (some a) = if expired now a then none else some a

-- GetAtom
unfoldable pub get_atom : Hash → Time → FrontierCache → Option Atom
unfolding unexpired
get_atom hash now f = elim (lookup hash f.hash_to_path) [
  | none ↦ none
  | some path ↦ unexpired now (lookup path f.entries)
]

-- GetCurrentHash
unfoldable pub get_current_hash : Bytes → Time → FrontierCache → Option Hash
unfolding unexpired
get_current_hash path now f = elim (unexpired now (lookup path f.entries)) [
  | none ↦ none
  | some a ↦ some a.hash
]

-- the test that VerifyVersionVector and FindChangedPaths make on one path
unfoldable pub changed : Bytes → Hash → Time → FrontierCache → Bool
unfolding expired
changed path expected now f = elim (lookup path f.entries) [
  | none ↦ true
  | some a ↦ not (a.hash == expected) || expired now a
]

-- VerifyVersionVector
unfoldable pub verify_version_vector : Dict Bytes Hash → Time → FrontierCache → Bool
unfolding changed
verify_version_vector [] now f = true
verify_version_vector ((p, h) ∷ v) now f =
    let rest = verify_version_vector v now f in if changed p h now f then false else rest

-- FindChangedPaths
unfoldable pub find_changed_paths : Dict Bytes Hash → Time → FrontierCache → List Bytes
unfolding changed
find_changed_paths [] now f = []
find_changed_paths ((p, h) ∷ v) now f =
    let rest = find_changed_paths v now f in if changed p h now f then p ∷ rest else rest

-- FrontierPaths
unfoldable pub live_paths : Time → Dict Bytes Atom → List Bytes
live_paths now [] = []
live_paths now ((p, a) ∷ m) =
    let rest = live_paths now m in
    if a.expires_at == 0 || ltb now a.expires_at then p ∷ rest else rest

-- sweepExpired, under RLock: the paths and hashes of the expired atoms
unfoldable pub collect_expired : Time → Dict Bytes Atom → Dict Bytes Hash
unfolding expired
collect_expired now [] = []
collect_expired now ((p, a) ∷ m) =
    let rest = collect_expired now m in if expired now a then (p, a.hash) ∷ rest else rest

-- sweepExpired, under Lock: one collected path, which goes if its atom is still the same
unfoldable pub sweep_one : Bytes → Hash → FrontierCache → FrontierCache
unfolding unlink estimate_atom_bytes
sweep_one path hash f = elim (lookup path f.entries) [
  | none ↦ f
  | some a ↦
      if a.hash == hash
      then (let g =
            unlink path
              (record f { current_bytes = f.current_bytes - estimate_atom_bytes path a }) in
          record g { entries = delete path g.entries; hash_to_path = delete hash g.hash_to_path })
      else f
]

unfoldable pub sweep : Dict Bytes Hash → FrontierCache → FrontierCache
unfolding sweep_one
sweep [] f = f
sweep ((p, h) ∷ collected) f = sweep collected (sweep_one p h f)
