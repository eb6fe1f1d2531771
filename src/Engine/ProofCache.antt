-- ===== src/Engine/ProofCache.antt =====
-- internal/engine/cache.go: a sharded cache of proofs with least-recently-used eviction.
pub mod Nodes
pub mod Refines
pub mod Write
pub mod Bounds
use wavicle.Prelude.{
  ℕ, ◌+◌, ◌*◌, ◌%◌, Bytes, Bool, true, false, ◌==◌, leb, if◌then◌else◌, Option, none, some, List,
  [], ◌∷◌, Dict, lookup, insert, delete, length, get_elem?, set, take, Linked, push_front, remove,
  move_to_front, back, assign, no_nodes, nat_eq, bytes_eq,
}
use wavicle.Core.{Hash}

-- cacheShard; a *list.Element is an address, and a node holds a cacheEntry (key, proof)
pub record Shard {ℓ} (P : Type ℓ) : Type ℓ where
  pub entries : Dict Hash ℕ
  pub lru : Linked (Hash × P)
  pub capacity : ℕ

module _ {ℓ} {P : Type ℓ} where
  unfoldable pub new_shard : ℕ → Shard P
  new_shard capacity = record { entries = []; lru = no_nodes; capacity = capacity }

  entry_of : ℕ → Linked (Hash × P) → Option P
  entry_of e l = elim (lookup e l.nodes) [ none ↦ none | some (_, p) ↦ some p ]

  -- Get under the shard's lock: the shard that it leaves, and the proof
  unfoldable pub shard_get : Hash → Shard P → Shard P × Option P
  unfolding entry_of
  shard_get key s = elim (lookup key s.entries) [
    | none ↦ (s, none)
    | some e ↦ (record s { lru = move_to_front e s.lru }, entry_of e s.lru)
  ]

  -- `elem.Value.(*cacheEntry).proof = proof`
  unfoldable pub set_proof : ℕ → P → Linked (Hash × P) → Linked (Hash × P)
  set_proof e p l = elim (lookup e l.nodes) [
    | none ↦ l
    | some (k, _) ↦ record l { nodes = assign e (k, p) l.nodes }
  ]

  -- the eviction of Set
  unfoldable pub make_room : Shard P → Shard P
  make_room s =
      if leb s.capacity (length s.lru.nodes)
      then elim (back s.lru.nodes) [
        | none ↦ s
        | some (e, (k, _)) ↦ record s { entries = delete k s.entries; lru = remove e s.lru }
      ]
      else s

  unfoldable pub push : Hash → P → Shard P → Shard P
  push key p s = record s {
    entries = insert key s.lru.fresh s.entries;
    lru = push_front (key, p) s.lru;
  }

  unfoldable pub shard_set : Hash → P → Shard P → Shard P
  unfolding make_room push set_proof
  shard_set key p s = elim (lookup key s.entries) [
    | some e ↦ record s { lru = set_proof e p (move_to_front e s.lru) }
    | none ↦ push key p (make_room s)
  ]

  unfoldable pub shard_delete : Hash → Shard P → Shard P
  shard_delete key s = elim (lookup key s.entries) [
    | none ↦ s
    | some e ↦ record s { entries = delete key s.entries; lru = remove e s.lru }
  ]

-- FastHash: the first eight bytes, little endian
unfoldable pub little_endian : List ℕ → ℕ
little_endian [] = 0
little_endian (b ∷ bs) = b + 256 * little_endian bs

unfoldable pub fast_hash : Hash → ℕ
unfolding little_endian
fast_hash h = little_endian (take 8 h)

-- ProofCache: its shards
abbrev pub ProofCache {ℓ} : Type ℓ → Type ℓ
ProofCache P = List (Shard P)

module _ {ℓ} {P : Type ℓ} where
  -- `shard`; the index is in range unless the cache has no shard, where Go divides by zero
  abbrev pub shard_index : Hash → ProofCache P → ℕ
  shard_index key c = fast_hash key % length c

  -- The methods; `none` is the panic of a cache without shards.
  unfoldable pub get : Hash → ProofCache P → Option (ProofCache P × Option P)
  unfolding shard_get
  get key c = elim (get_elem? c (shard_index key c)) [
    | none ↦ none
    | some s ↦ let (s', found) = shard_get key s in some (set c (shard_index key c) s', found)
  ]

  unfoldable pub put : Hash → P → ProofCache P → Option (ProofCache P)
  unfolding shard_set
  put key p c = elim (get_elem? c (shard_index key c)) [
    | none ↦ none
    | some s ↦ some (set c (shard_index key c) (shard_set key p s))
  ]

  unfoldable pub evict : Hash → ProofCache P → Option (ProofCache P)
  unfolding shard_delete
  evict key c = elim (get_elem? c (shard_index key c)) [
    | none ↦ none
    | some s ↦ some (set c (shard_index key c) (shard_delete key s))
  ]
