-- ===== src/Cluster/HashRing.antt =====
-- internal/cluster/hashring.go: a consistent-hash ring with virtual nodes.
pub mod Sorting
pub mod Routing
use wavicle.Prelude.{
  ℕ, zero, suc, ◌+◌, Bytes, codes, Bool, true, false, leb, ◌==◌, nat_eq, bytes_eq, if◌then◌else◌,
  Option, none, some, List, [], ◌∷◌, ◌++◌, Dict, lookup, insert, delete, decimal,
}

pub record HashRing : Type 0 where
  pub replicas : ℕ
  pub keys : List ℕ
  pub nodes : Dict ℕ Bytes

-- NewHashRing; a count of 0 or below stands for 128
unfoldable pub new_hash_ring : ℕ → HashRing
new_hash_ring replicas = record {
  replicas = if replicas == 0 then 128 else replicas;
  keys = [];
  nodes = [];
}

-- one key into its place among sorted keys
unfoldable pub put_key : ℕ → List ℕ → List ℕ
put_key v [] = v ∷ []
put_key v (k ∷ ks) = let rest = put_key v ks in if leb k v then k ∷ rest else v ∷ k ∷ ks

-- the keys into their places, one after the other
unfoldable pub put_keys : List ℕ → List ℕ → List ℕ
unfolding put_key
put_keys sorted [] = sorted
put_keys sorted (k ∷ ks) = put_keys (put_key k sorted) ks

-- sort.Slice on the keys
unfoldable pub sort_keys : List ℕ → List ℕ
unfolding put_keys
sort_keys ks = put_keys [] ks

-- `h.nodes[k] = node` for the keys of a node
unfoldable pub bind_keys : Bytes → List ℕ → Dict ℕ Bytes → Dict ℕ Bytes
bind_keys node [] m = m
bind_keys node (k ∷ ks) m = bind_keys node ks (insert k node m)

-- `h.nodes[k]`, with Go's zero value for a key that is not there
unfoldable pub node_at : ℕ → Dict ℕ Bytes → Bytes
node_at k m = elim (lookup k m) [ none ↦ [] | some node ↦ node ]

-- the loop of Remove: the keys that stay, and the map
unfoldable pub sweep_keys : Bytes → List ℕ → Dict ℕ Bytes → List ℕ × Dict ℕ Bytes
unfolding node_at
sweep_keys node [] m = ([], m)
sweep_keys node (k ∷ ks) m =
    if node_at k m == node
    then sweep_keys node ks (delete k m)
    else let (keep, rest) = sweep_keys node ks m in (k ∷ keep, rest)

-- sort.Search: the first key that is at least x
unfoldable pub first_from : ℕ → List ℕ → Option ℕ
first_from x [] = none
first_from x (k ∷ ks) = let rest = first_from x ks in if leb x k then some k else rest

-- past the last key, the first one
unfoldable pub or_first : Option ℕ → List ℕ → Option ℕ
or_first (some k) ks = some k
or_first none [] = none
or_first none (k ∷ _) = some k

-- the key of the ring that x belongs to
unfoldable pub successor : ℕ → List ℕ → Option ℕ
unfolding first_from or_first
successor x ks = or_first (first_from x ks) ks

-- `xxhash` is xxhash.Sum64String.
module _ (xxhash : Bytes → ℕ) where
  -- the virtual keys of a node, from number i on
  unfoldable pub virtual_keys : Bytes → ℕ → ℕ → List ℕ
  virtual_keys node i zero = []
  virtual_keys node i (suc n) =
      xxhash (node ++ codes "#vn#" ++ decimal i) ∷ virtual_keys node (suc i) n

  -- Add
  unfoldable pub add : Bytes → HashRing → HashRing
  unfolding virtual_keys sort_keys bind_keys
  add node h =
      let ks = virtual_keys node 0 h.replicas in
      record h { keys = sort_keys (h.keys ++ ks); nodes = bind_keys node ks h.nodes }

  -- Remove
  abbrev pub remove : Bytes → HashRing → HashRing
  remove node h = let r = sweep_keys node h.keys h.nodes in record h { keys = r.0; nodes = r.1 }

  -- Get
  unfoldable pub route : Bytes → HashRing → Bytes
  unfolding successor node_at
  route key h = elim (successor (xxhash key) h.keys) [ none ↦ [] | some k ↦ node_at k h.nodes ]
