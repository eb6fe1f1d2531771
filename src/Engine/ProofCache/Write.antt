-- ===== src/Engine/ProofCache/Write.antt =====
-- Set on a shard of the proof cache refines the specification, and keeps it within its capacity.
use wavicle.Prelude.{
  ℕ, ◌<◌, ◌≡◌, refl, sym, ap, ◌∙◌, true, false, ==_refl, nat_eq, bytes_eq, if◌then◌else◌, leb,
  is_some, none, some, ◌∷◌, arith, Bool-cases, Option-cases, inl, inr, Dict, keys, lookup, insert,
  delete, length, elem, lookup-delete, lookup-insert, elem-keys-lookup, back, assign, Linked,
  IsSound, All-elem, All-weaken,
}
use wavicle.Core.{Hash}
use wavicle.Engine.ProofCache.{Shard, set_proof, make_room, push, shard_set}
use wavicle.Engine.ProofCache.Nodes.{
  address, lookup-address, address-eq-none, address-back, drop_last, delete-back, back-nil,
  length-recency,
}
use wavicle.Engine.ProofCache.Refines.{
  view, spec_set, IsValid, touched, touched-IsValid, dropped, dropped-IsValid,
}

module _ {ℓ} {P : Type ℓ} where
  -- what the specification keeps before it adds an entry
  abbrev trimmed : ℕ → Dict Hash P → Dict Hash P
  trimmed capacity l = if leb capacity (length l) then drop_last l else l

  make_room_fits : (s : Shard P) → leb s.capacity (length s.lru.nodes) ≡ false → make_room s ≡ s
  unfolding make_room
  make_room_fits s h = ground arith

  make_room_empty : (s : Shard P) → back s.lru.nodes ≡ none → make_room s ≡ s
  unfolding make_room
  make_room_empty s h = ground arith

  make_room_full :
      (s : Shard P) {e : ℕ} {k : Hash} {p : P}
      → leb s.capacity (length s.lru.nodes) ≡ true
      → back s.lru.nodes ≡ some (e, (k, p))
      → make_room s ≡ dropped e k s
  unfolding make_room dropped
  make_room_full s h b = ground arith

  -- Room keeps the shard valid, drops the least recent entry of a full shard, and brings no key.
  Roomy : Shard P → Shard P → Type ℓ
  Roomy s t =
      IsValid t
      × (view t ≡ trimmed s.capacity (view s))
      × ((key : Hash) → lookup key s.entries ≡ none → lookup key t.entries ≡ none)

  make_room-Roomy : (s : Shard P) → IsValid s → Roomy s (make_room s)
  unfolding Roomy dropped drop_last
  make_room-Roomy s v = elim (Bool-cases (leb s.capacity (length s.lru.nodes))) [
    | inr fits ↦ rw (make_room_fits s fits) (v, rw (length-recency s.lru.nodes, fits), λ key h. h)
    | inl full ↦ elim (Option-cases (back s.lru.nodes)) [
      | inl nothing ↦
          rw (make_room_empty s nothing, length-recency s.lru.nodes, full)
            (v, rw (back-nil s.lru.nodes nothing), λ key h. h)
      | inr ((e, (k, p)), last) ↦
          let (valid, left) = dropped-IsValid e k s v (address-back s.lru.nodes v.unique last) in
          rw (make_room_full s full last, length-recency s.lru.nodes, full)
            (
              valid,
              left ∙ delete-back s.lru.nodes v.unique last,
              λ key h. ground (arith, lookup-delete k key s.entries),
            )
    ]
  ]

  fresh_address : (l : Linked (Hash × P)) → IsSound l → elem l.fresh (keys l.nodes) ≡ false
  fresh_address l h = elim (Bool-cases (elem l.fresh (keys l.nodes))) [
    | inl m ↦ absurd (omega (arith, All-elem (λ e. e < l.fresh) l.fresh (keys l.nodes) h.bounded m))
    | inr n ↦ n
  ]

  view-push : (key : Hash) (p : P) (s : Shard P) → view (push key p s) ≡ (key, p) ∷ view s
  unfolding push
  view-push key p s = refl

  push-IsValid :
      (key : Hash) (p : P) (s : Shard P)
      → IsValid s
      → lookup key s.entries ≡ none
      → IsValid (push key p s)
  unfolding push address
  push-IsValid key p s v miss =
      let absent = address-eq-none key s.lru.nodes (sym (v.index key) ∙ miss) in
      record {
        sound = record {
          distinct = (fresh_address s.lru v.sound, v.sound.distinct);
          bounded =
              (omega arith, All-weaken (λ e h. omega arith) (keys s.lru.nodes) v.sound.bounded);
        };
        unique = (elem-keys-lookup key (view s) ∙ ap is_some absent, v.unique);
        index = λ k. ground (arith, v.index k, lookup-insert key k s.lru.fresh s.entries);
      }

  set_hit :
      (key : Hash) (e : ℕ) (p q : P) (s : Shard P)
      → lookup key s.entries ≡ some e
      → lookup e s.lru.nodes ≡ some (key, q)
      → shard_set key p s ≡ touched e key p s
  unfolding shard_set set_proof touched assign insert lookup
  set_hit key e p q s h n = ground (arith, h, n, ==_refl e)

  set_miss :
      (key : Hash) (p : P) (s : Shard P)
      → lookup key s.entries ≡ none
      → shard_set key p s ≡ push key p (make_room s)
  unfolding shard_set
  set_miss key p s h = ground arith

  spec_set_hit :
      (capacity : ℕ) (key : Hash) (p q : P) (l : Dict Hash P)
      → lookup key l ≡ some q
      → spec_set capacity key p l ≡ (key, p) ∷ delete key l
  unfolding spec_set
  spec_set_hit capacity key p q l h = ground arith

  spec_set_miss :
      (capacity : ℕ) (key : Hash) (p : P) (l : Dict Hash P)
      → lookup key l ≡ none
      → spec_set capacity key p l ≡ (key, p) ∷ trimmed capacity l
  unfolding spec_set
  spec_set_miss capacity key p l h = ground arith

  -- Set keeps a shard valid, and its entries become those of the specification: a stored key is
  -- overwritten and moved to the front, a new one takes the place of the least recent entry of a
  -- full shard.
  pub shard_set-refines :
      (key : Hash) (p : P) (s : Shard P)
      → IsValid s
      → IsValid (shard_set key p s)
        × (view (shard_set key p s) ≡ spec_set s.capacity key p (view s))
  unfolding Roomy
  shard_set-refines key p s v = elim (Option-cases (lookup key s.entries)) [
    | inl miss ↦
        let absent = address-eq-none key s.lru.nodes (sym (v.index key) ∙ miss) in
        let (valid, kept, still) = make_room-Roomy s v in
        rw (set_miss key p s miss) (
          push-IsValid key p (make_room s) valid (still key miss),
          view-push key p (make_room s)
              ∙ ap (◌∷◌ (key, p)) kept
              ∙ sym (spec_set_miss s.capacity key p (view s) absent),
        )
    | inr (e, hit) ↦
        let (q, found, read) =
          lookup-address key e s.lru.nodes v.sound.distinct (sym (v.index key) ∙ hit) in
        let (valid, moved) = touched-IsValid e key p s v hit in
        rw (set_hit key e p q s hit found)
          (valid, moved ∙ sym (spec_set_hit s.capacity key p q (view s) read))
  ]
