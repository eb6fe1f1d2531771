-- ===== src/Storage/FrontierCache/Ceiling.antt =====
-- AppendAtom: eviction from the back keeps the invariant and brings the byte count under the
-- ceiling.
use wavicle.Prelude.{
  ℕ, zero, suc, ◌≤◌, ◌<◌, Bytes, ◌≡◌, refl, ap, ◌∙◌, ==_refl, nat_eq, bytes_eq, none, some, [], ◌∷◌,
  arith, Bool-cases, Option-cases, inl, inr, lookup, insert, delete, length, delete_absent,
  length-delete, lookup-delete, back, ltb,
}
use wavicle.Core.{Atom}
use wavicle.Storage.FrontierCache.{
  FrontierCache, unlink, forget_old, store_atom, evict_back, evict_loop,
}
use wavicle.Storage.FrontierCache.Recency.{
  Nodes, address, address-back, back-nil, lookup-address, total_nothing,
}
use wavicle.Storage.FrontierCache.Drop.{
  IsValid, dropped, dropped-IsValid, present_address, store_atom-IsValid,
}

-- What the back of the list names.
pub last_entry :
    (f : FrontierCache) (e : ℕ) (p : Bytes)
    → IsValid f
    → back f.lru_list.nodes ≡ some (e, p)
    → (address p f.lru_list.nodes ≡ some e) × (a : Atom) × (lookup p f.entries ≡ some a)
last_entry f e p v h =
    let at = address-back f.lru_list.nodes v.unique h in
    elim (Option-cases (lookup p f.entries)) [
      | inl n ↦ absurd (ground (arith, v.present p))
      | inr (a, stored) ↦ (at, a, stored)
    ]

pub evict_back-dropped :
    (e : ℕ) (p : Bytes) (a : Atom) (f : FrontierCache)
    → lookup p f.entries ≡ some a
    → evict_back e p f ≡ dropped e p a (delete a.hash f.hash_to_path) f
unfolding evict_back dropped
evict_back-dropped e p a f stored = rw (stored, evict_back) refl

pub evict_back-IsValid :
    (e : ℕ) (p : Bytes) (f : FrontierCache)
    → IsValid f
    → back f.lru_list.nodes ≡ some (e, p)
    → IsValid (evict_back e p f)
evict_back-IsValid e p f v h =
    let (at, a, stored) = last_entry f e p v h in
    rw (evict_back-dropped e p a f stored)
      (dropped-IsValid e p a (delete a.hash f.hash_to_path) f v at stored)

-- Eviction shortens the list.
evict_back-shorter :
    (e : ℕ) (p : Bytes) (f : FrontierCache)
    → IsValid f
    → back f.lru_list.nodes ≡ some (e, p)
    → length (evict_back e p f).lru_list.nodes < length f.lru_list.nodes
evict_back-shorter e p f v h =
    let (at, a, stored) = last_entry f e p v h in
    let ns = f.lru_list.nodes in
    let here = lookup-address p e ns v.sound.distinct at in
    rw (evict_back-dropped e p a f stored)
      (unfold dropped in omega (arith, length-delete e p ns v.sound.distinct here))

empty_total : (f : FrontierCache) → IsValid f → f.lru_list.nodes ≡ [] → f.current_bytes ≡ 0
empty_total f v h =
    v.counted
    ∙ total_nothing f.entries (λ p. elim (Option-cases (lookup p f.entries)) [
      | inl n ↦ n
      | inr (a, stored) ↦ absurd (unfold address in ground (arith, v.present p, ap (address p) h))
    ])

length_nil : (ns : Nodes) → length ns ≤ 0 → ns ≡ []
length_nil [] h = refl
length_nil (n ∷ ns) h = absurd (omega arith)

pub evict_loop-IsValid :
    (fuel target : ℕ) (f : FrontierCache)
    → IsValid f
    → length f.lru_list.nodes ≤ fuel
    → IsValid (evict_loop fuel target f) × (evict_loop fuel target f).current_bytes ≤ target
unfolding evict_loop
evict_loop-IsValid zero target f v enough =
    (v, omega (arith, empty_total f v (length_nil f.lru_list.nodes (omega arith))))
evict_loop-IsValid (suc fuel) target f v enough = elim (Bool-cases (ltb target f.current_bytes)) [
  | inr n ↦ rw (n, evict_loop) (v, ground (arith, n))
  | inl m ↦ elim (Option-cases (back f.lru_list.nodes)) [
    | inl n ↦
        rw (m, n, evict_loop) (v, omega (arith, empty_total f v (back-nil f.lru_list.nodes n)))
    | inr ((e, p), h) ↦
        let shorter = evict_back-shorter e p f v h in
        rw (m, h, evict_loop)
          (evict_loop-IsValid fuel target (evict_back e p f) (evict_back-IsValid e p f v h)
            (omega arith))
  ]
]

clocked : (k : ℕ) (f : FrontierCache) → IsValid f → IsValid (record f { clock = k })
clocked k f v = record {
  sound = v.sound;
  unique = v.unique;
  index = v.index;
  present = v.present;
  keyed = v.keyed;
  counted = v.counted;
}

pub forget_old_absent :
    (p : Bytes) (f : FrontierCache) → lookup p f.entries ≡ none → forget_old p f ≡ f
unfolding forget_old
forget_old_absent p f n = rw (n, forget_old) refl

-- The old entry stays in the map until the new one replaces it.
pub forget_old-dropped :
    (e : ℕ) (p : Bytes) (a : Atom) (f : FrontierCache)
    → lookup p f.entries ≡ some a
    → lookup p f.lru_nodes ≡ some e
    → forget_old p f
      ≡ record (dropped e p a (delete a.hash f.hash_to_path) f) { entries = f.entries }
unfolding forget_old dropped
forget_old-dropped e p a f stored at = rw (stored, at, forget_old, unlink) refl

pub deleted : (p : Bytes) (f : FrontierCache) → lookup p (delete p f.entries) ≡ none
deleted p f = ground (arith, lookup-delete p p f.entries, ==_refl p)

store_atom-again :
    (p : Bytes) (a : Atom) (f : FrontierCache)
    → store_atom p a (record f { entries = delete p f.entries }) ≡ store_atom p a f
unfolding store_atom insert
store_atom-again p a f = rw (delete_absent p (delete p f.entries) (deleted p f)) refl

pub store_atom-forget_old :
    (p : Bytes) (a : Atom) (k : ℕ) (f : FrontierCache)
    → IsValid f
    → IsValid (store_atom p a (record (forget_old p f) { clock = k }))
unfolding dropped delete
store_atom-forget_old p a k f v = elim (Option-cases (lookup p f.entries)) [
  | inl n ↦
      rw (forget_old_absent p f n)
        (store_atom-IsValid p a (record f { clock = k }) (clocked k f v) n)
  | inr (old, stored) ↦
      let (e, at) = present_address f p v stored in
      let g = dropped e p old (delete old.hash f.hash_to_path) f in
      let w : IsValid g = dropped-IsValid e p old (delete old.hash f.hash_to_path) f v at stored in
      rw (forget_old-dropped e p old f stored (v.index p ∙ at)) (
        rw (← store_atom-again p a (record g { entries = f.entries; clock = k }))
          (store_atom-IsValid p a (record g { clock = k }) (clocked k g w) (deleted p f)))
]
