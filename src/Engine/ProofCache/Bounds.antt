-- ===== src/Engine/ProofCache/Bounds.antt =====
-- The capacity of a shard, and the whole cache: what Get returns after Set and Delete.
use wavicle.Prelude.{
  ℕ, ◌≤◌, ◌<◌, ◌≡◌, ap, ◌∙◌, ==_refl, nat_eq, bytes_eq, none, some, arith, Option-cases, inl, inr,
  Dict, keys, lookup, delete, length, Distinct, All, get_elem?, set, lookup-delete, length-delete,
  get_elem?-total, All-get_elem?, All-set, length-set, get_elem?-set_self,
}
use wavicle.Core.{Hash}
use wavicle.Engine.ProofCache.{
  Shard, ProofCache, shard_index, shard_get, shard_set, shard_delete, get, put, evict,
}
use wavicle.Engine.ProofCache.Nodes.{length-drop_last}
use wavicle.Engine.ProofCache.Refines.{
  view, spec_set, IsValid, shard_get-refines, shard_delete-refines,
}
use wavicle.Engine.ProofCache.Write.{shard_set-refines}

module _ {ℓ} {P : Type ℓ} where
  length-spec_set-le :
      (capacity : ℕ) (key : Hash) (p : P) (l : Dict Hash P)
      → 0 < capacity
      → Distinct (keys l)
      → length l ≤ capacity
      → length (spec_set capacity key p l) ≤ capacity
  unfolding spec_set
  length-spec_set-le capacity key p l c d h = elim (Option-cases (lookup key l)) [
    | inl miss ↦ ground (arith, miss, length-drop_last l)
    | inr (q, hit) ↦ ground (arith, hit, length-delete key q l d hit)
  ]

  -- A valid shard of a capacity above 0 that holds at most its capacity still does after Set.
  length-shard_set-le :
      (key : Hash) (p : P) (s : Shard P)
      → IsValid s
      → 0 < s.capacity
      → length (view s) ≤ s.capacity
      → length (view (shard_set key p s)) ≤ s.capacity
  length-shard_set-le key p s v c h =
      let (_, e) = shard_set-refines key p s v in
      rw e (length-spec_set-le s.capacity key p (view s) c v.unique h)

  lookup-spec_set_self :
      (capacity : ℕ) (key : Hash) (p : P) (l : Dict Hash P)
      → lookup key (spec_set capacity key p l) ≡ some p
  unfolding spec_set lookup
  lookup-spec_set_self capacity key p l = ground (arith, ==_refl key)

  shard_at :
      (key : Hash) (c : ProofCache P)
      → 0 < length c
      → (s : Shard P) × (get_elem? c (shard_index key c) ≡ some s)
  shard_at key c h = get_elem?-total c (shard_index key c) (omega arith)

  put_at :
      (key : Hash) (p : P) (c : ProofCache P) (s : Shard P)
      → get_elem? c (shard_index key c) ≡ some s
      → put key p c ≡ some (set c (shard_index key c) (shard_set key p s))
  unfolding put
  put_at key p c s h = rw (h, put)

  get_at :
      (key : Hash) (c : ProofCache P) (s : Shard P)
      → get_elem? c (shard_index key c) ≡ some s
      → get key c ≡ some (set c (shard_index key c) (shard_get key s).0, (shard_get key s).1)
  unfolding get
  get_at key c s h = rw (h, get)

  evict_at :
      (key : Hash) (c : ProofCache P) (s : Shard P)
      → get_elem? c (shard_index key c) ≡ some s
      → evict key c ≡ some (set c (shard_index key c) (shard_delete key s))
  unfolding evict
  evict_at key c s h = rw (h, evict)

  -- the shard of a key after that shard was replaced
  shard_set-at :
      (key : Hash) (c : ProofCache P) (s t : Shard P)
      → get_elem? c (shard_index key c) ≡ some s
      → let c' = set c (shard_index key c) t in get_elem? c' (shard_index key c') ≡ some t
  shard_set-at key c s t h = rw length-set (get_elem?-set_self c (shard_index key c) t h)

  -- What Get answers when the shard of the key is known.
  answer :
      (key : Hash) (c : ProofCache P) (s : Shard P)
      → All IsValid c
      → get_elem? c (shard_index key c) ≡ some s
      → (c' : ProofCache P) × (get key c ≡ some (c', lookup key (view s))) × All IsValid c'
  answer key c s v at =
      let (valid, _, found) = shard_get-refines key s (All-get_elem? IsValid c _ v at) in
      (
        set c (shard_index key c) (shard_get key s).0,
        get_at key c s at ∙ ap (λ o. some (set c (shard_index key c) (shard_get key s).0, o)) found,
        All-set IsValid c (shard_index key c) _ v valid,
      )

  -- On a cache of at least one shard, all valid, Set succeeds and a Get of the same key then
  -- returns the proof that was set; the shards stay valid throughout.
  get-put :
      (key : Hash) (p : P) (c : ProofCache P)
      → 0 < length c
      → All IsValid c
      → (c₁ : ProofCache P) × (put key p c ≡ some c₁)
        × All IsValid c₁
        × (c₂ : ProofCache P) × (get key c₁ ≡ some (c₂, some p))
        × All IsValid c₂
  get-put key p c h v =
      let (s, at) = shard_at key c h in
      let (valid, e) = shard_set-refines key p s (All-get_elem? IsValid c _ v at) in
      let c₁ = set c (shard_index key c) (shard_set key p s) in
      let v₁ = All-set IsValid c (shard_index key c) _ v valid in
      let (c₂, found, v₂) = answer key c₁ (shard_set key p s) v₁ (shard_set-at key c s _ at) in
      let stored = ap (lookup key) e ∙ lookup-spec_set_self s.capacity key p (view s) in
      (c₁, put_at key p c s at, v₁, c₂, found ∙ ap (λ o. some (c₂, o)) stored, v₂)

  -- On a cache of at least one shard, all valid, Delete succeeds and a Get of the same key then
  -- finds nothing; the shards stay valid throughout.
  get-evict :
      (key : Hash) (c : ProofCache P)
      → 0 < length c
      → All IsValid c
      → (c₁ : ProofCache P) × (evict key c ≡ some c₁)
        × All IsValid c₁
        × (c₂ : ProofCache P) × (get key c₁ ≡ some (c₂, none))
        × All IsValid c₂
  get-evict key c h v =
      let (s, at) = shard_at key c h in
      let (valid, e) = shard_delete-refines key s (All-get_elem? IsValid c _ v at) in
      let c₁ = set c (shard_index key c) (shard_delete key s) in
      let v₁ = All-set IsValid c (shard_index key c) _ v valid in
      let (c₂, found, v₂) = answer key c₁ (shard_delete key s) v₁ (shard_set-at key c s _ at) in
      let gone : lookup key (delete key (view s)) ≡ none =
        ground (arith, lookup-delete key key (view s), ==_refl key) in
      (
        c₁,
        evict_at key c s at,
        v₁,
        c₂,
        found ∙ ap (λ o. some (c₂, o)) (ap (lookup key) e ∙ gone),
        v₂,
      )
