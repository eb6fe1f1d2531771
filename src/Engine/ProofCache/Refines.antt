-- ===== src/Engine/ProofCache/Refines.antt =====
-- A shard of the proof cache refines a plain recency list of (key, proof).
use wavicle.Prelude.{
  ℕ, ◌≡◌, sym, ap, ◌∙◌, ==_iff, nat_eq, bytes_eq, if◌then◌else◌, leb, none, some, ◌∷◌, arith,
  Option-cases, inl, inr, Dict, keys, lookup, insert, delete, length, Distinct, lookup-delete,
  delete-Distinct, delete-All, front-Distinct, All-elem, IsSound, remove, delete_absent,
}
use wavicle.Core.{Hash}
use wavicle.Engine.ProofCache.{Shard, shard_get, shard_delete}
use wavicle.Engine.ProofCache.Nodes.{
  recency, address, lookup-address, address-eq-none, recency-delete, address-delete, drop_last,
  elem-address,
}

module _ {ℓ} {P : Type ℓ} where
  -- The specification: the entries in the order of their last use.
  abbrev pub view : Shard P → Dict Hash P
  view s = recency s.lru.nodes

  -- Get finds what is stored and makes it the most recent entry.
  unfoldable pub spec_get : Hash → Dict Hash P → Dict Hash P
  spec_get key l = elim (lookup key l) [ none ↦ l | some p ↦ (key, p) ∷ delete key l ]

  -- Set replaces an entry, or drops the least recent one when the cache is full.
  unfoldable pub spec_set : ℕ → Hash → P → Dict Hash P → Dict Hash P
  spec_set capacity key p l = elim (lookup key l) [
    | some _ ↦ (key, p) ∷ delete key l
    | none ↦ (key, p) ∷ (if leb capacity (length l) then drop_last l else l)
  ]

  -- The map and the list agree, and no address and no key stands twice.
  pub record IsValid (s : Shard P) : Type ℓ where
    pub sound : IsSound s.lru
    pub unique : Distinct (keys (view s))
    pub index : (k : Hash) → lookup k s.entries ≡ address k s.lru.nodes

  -- an element that the map knows, moved to the front with a new proof
  unfoldable pub touched : ℕ → Hash → P → Shard P → Shard P
  touched e key p s = record s {
    lru = record s.lru { nodes = (e, (key, p)) ∷ delete e s.lru.nodes };
  }

  pub touched-IsValid :
      (e : ℕ) (key : Hash) (p : P) (s : Shard P)
      → IsValid s
      → lookup key s.entries ≡ some e
      → IsValid (touched e key p s) × (view (touched e key p s) ≡ (key, p) ∷ delete key (view s))
  unfolding touched address
  touched-IsValid e key p s v h =
      let ns = s.lru.nodes in
      let at : address key ns ≡ some e = sym (v.index key) ∙ h in
      let dropped = recency-delete key e ns v.sound.distinct v.unique at in
      (
        record {
          sound = record {
            distinct = front-Distinct e ns v.sound.distinct;
            bounded = (
              All-elem _ e (keys ns) v.sound.bounded (elem-address key e ns at),
              delete-All _ e ns v.sound.bounded,
            );
          };
          unique = rw dropped (front-Distinct key (recency ns) v.unique);
          index = λ k. ground (
            arith,
            v.index k,
            at,
            address-delete key k e ns v.sound.distinct v.unique at,
            ==_iff key k,
          );
        },
        ap (◌∷◌ (key, p)) dropped,
      )

  get_miss : (key : Hash) (s : Shard P) → lookup key s.entries ≡ none → shard_get key s ≡ (s, none)
  unfolding shard_get
  get_miss key s h = ground arith

  get_hit :
      (key : Hash) (e : ℕ) (p : P) (s : Shard P)
      → lookup key s.entries ≡ some e
      → lookup e s.lru.nodes ≡ some (key, p)
      → shard_get key s ≡ (touched e key p s, some p)
  unfolding shard_get touched insert
  get_hit key e p s h n = ground arith

  spec_miss : (key : Hash) (l : Dict Hash P) → lookup key l ≡ none → spec_get key l ≡ l
  unfolding spec_get
  spec_miss key l h = ground arith

  spec_hit :
      (key : Hash) (p : P) (l : Dict Hash P)
      → lookup key l ≡ some p
      → spec_get key l ≡ (key, p) ∷ delete key l
  unfolding spec_get
  spec_hit key p l h = ground arith

  -- Get keeps a shard valid; its entries become those of the specification, and the answer is the
  -- proof stored under the key, or none.
  pub shard_get-refines :
      (key : Hash) (s : Shard P)
      → IsValid s
      → IsValid (shard_get key s).0
        × (view (shard_get key s).0 ≡ spec_get key (view s))
        × ((shard_get key s).1 ≡ lookup key (view s))
  shard_get-refines key s v = elim (Option-cases (lookup key s.entries)) [
    | inl miss ↦
        let absent = address-eq-none key s.lru.nodes (sym (v.index key) ∙ miss) in
        rw (get_miss key s miss) (v, sym (spec_miss key (view s) absent), sym absent)
    | inr (e, hit) ↦
        let (p, found, read) =
          lookup-address key e s.lru.nodes v.sound.distinct (sym (v.index key) ∙ hit) in
        let (valid, moved) = touched-IsValid e key p s v hit in
        rw (get_hit key e p s hit found)
          (valid, moved ∙ sym (spec_hit key p (view s) read), sym read)
  ]

  -- the shard without an entry
  unfoldable pub dropped : ℕ → Hash → Shard P → Shard P
  dropped e key s = record s { entries = delete key s.entries; lru = remove e s.lru }

  pub dropped-IsValid :
      (e : ℕ) (key : Hash) (s : Shard P)
      → IsValid s
      → address key s.lru.nodes ≡ some e
      → IsValid (dropped e key s) × (view (dropped e key s) ≡ delete key (view s))
  unfolding dropped
  dropped-IsValid e key s v at =
      let ns = s.lru.nodes in
      let gone = recency-delete key e ns v.sound.distinct v.unique at in
      (
        record {
          sound = record {
            distinct = delete-Distinct e ns v.sound.distinct;
            bounded = delete-All _ e ns v.sound.bounded;
          };
          unique = rw gone (delete-Distinct key (recency ns) v.unique);
          index = λ k. ground (
            arith,
            v.index k,
            lookup-delete key k s.entries,
            address-delete key k e ns v.sound.distinct v.unique at,
          );
        },
        gone,
      )

  delete_miss : (key : Hash) (s : Shard P) → lookup key s.entries ≡ none → shard_delete key s ≡ s
  unfolding shard_delete
  delete_miss key s h = ground arith

  delete_hit :
      (key : Hash) (e : ℕ) (s : Shard P)
      → lookup key s.entries ≡ some e
      → shard_delete key s ≡ dropped e key s
  unfolding shard_delete dropped
  delete_hit key e s h = ground arith

  -- Delete keeps a shard valid and removes the key's entry and no other.
  pub shard_delete-refines :
      (key : Hash) (s : Shard P)
      → IsValid s
      → IsValid (shard_delete key s) × (view (shard_delete key s) ≡ delete key (view s))
  shard_delete-refines key s v = elim (Option-cases (lookup key s.entries)) [
    | inl miss ↦
        let absent = address-eq-none key s.lru.nodes (sym (v.index key) ∙ miss) in
        rw (delete_miss key s miss) (v, sym (delete_absent key (view s) absent))
    | inr (e, hit) ↦
        rw (delete_hit key e s hit) (dropped-IsValid e key s v (sym (v.index key) ∙ hit))
  ]
