-- ===== src/Storage/FrontierCache/Append.antt =====
-- What AppendAtom promises: a consistent cache under its ceiling, with the new atom in it.
use wavicle.Prelude.{
  if_cases, ℕ, zero, ◌⊎◌, suc, ◌≤◌, ◌<◌, Bytes, ◌≡◌, refl, sym, ap, ◌∙◌, true, false, ◌==◌, ==_iff,
  ==_refl, nat_eq, bytes_eq, none, some, [], ◌∷◌, arith, Bool-cases, Option-cases, inl, inr, keys,
  lookup, delete, length, Distinct, lookup-delete, lookup-insert, ◌&&◌, back, ltb, leb,
}
use wavicle.Core.{Expr, Atom, Time, Platform}
use wavicle.Storage.FrontierCache.{
  FrontierCache, estimate_atom_bytes, unlink, forget_old, store_atom, evict_back, evict_loop,
  enforce_ceiling, new_atom, append_atom,
}
use wavicle.Storage.FrontierCache.Recency.{
  Nodes, paths, address, elem-address, elem-paths-address, address-back, total_nothing,
  total-delete,
}
use wavicle.Storage.FrontierCache.Drop.{IsValid, dropped}
use wavicle.Storage.FrontierCache.Ceiling.{
  last_entry, evict_back-dropped, evict_back-IsValid, evict_loop-IsValid, store_atom-forget_old,
}

-- The byte count is under 90% of the limit, or at most 80% of it.
unfoldable pub IsUnder : Platform → FrontierCache → Type 0
IsUnder os f =
    (f.current_bytes < os.ninety_percent f.max_memory_bytes)
    ⊎ (f.current_bytes ≤ os.eighty_percent f.max_memory_bytes)

evict_back-kept :
    (e : ℕ) (p : Bytes) (f : FrontierCache)
    → (evict_back e p f).max_memory_bytes ≡ f.max_memory_bytes × (evict_back e p f).clock ≡ f.clock
unfolding evict_back
evict_back-kept e p f = elim (Option-cases (lookup p f.entries)) [
  | inl n ↦ rw (n, evict_back) (refl, refl)
  | inr (a, stored) ↦ rw (stored, evict_back) (refl, refl)
]

evict_loop-kept :
    (fuel target : ℕ) (f : FrontierCache)
    → (evict_loop fuel target f).max_memory_bytes ≡ f.max_memory_bytes
      × (evict_loop fuel target f).clock ≡ f.clock
unfolding evict_loop
evict_loop-kept zero target f = (refl, refl)
evict_loop-kept (suc fuel) target f = elim (Bool-cases (ltb target f.current_bytes)) [
  | inr n ↦ rw (n, evict_loop) (refl, refl)
  | inl m ↦ elim (Option-cases (back f.lru_list.nodes)) [
    | inl n ↦ rw (m, n, evict_loop) (refl, refl)
    | inr ((e, p), h) ↦
        let (a, b) = evict_back-kept e p f in
        let (c, d) = evict_loop-kept fuel target (evict_back e p f) in
        rw (m, h, evict_loop) (c ∙ a, d ∙ b)
  ]
]

unlink-kept : (p : Bytes) (f : FrontierCache) → (unlink p f).max_memory_bytes ≡ f.max_memory_bytes
unfolding unlink
unlink-kept p f = elim (Option-cases (lookup p f.lru_nodes)) [
  | inl n ↦ rw (n, unlink) refl
  | inr (e, h) ↦ rw (h, unlink) refl
]

forget_old-kept :
    (p : Bytes) (f : FrontierCache) → (forget_old p f).max_memory_bytes ≡ f.max_memory_bytes
unfolding forget_old
forget_old-kept p f = elim (Option-cases (lookup p f.entries)) [
  | inl n ↦ rw (n, forget_old) refl
  | inr (a, h) ↦ rw (h, forget_old) (unlink-kept p _)
]

-- The front entry survives eviction when it fits under the target by itself.
alone :
    (p : Bytes) (a : Atom) (e : ℕ) (f : FrontierCache)
    → IsValid f
    → f.lru_list.nodes ≡ (e, p) ∷ []
    → lookup p f.entries ≡ some a
    → f.current_bytes ≡ estimate_atom_bytes p a
unfolding address
alone p a e f v only stored =
    let others : (q : Bytes) → lookup q (delete p f.entries) ≡ none =
      λ q. ground (arith, v.present q, lookup-delete p q f.entries, ap (address q) only) in
    omega (
      arith,
      v.counted,
      total-delete p a f.entries v.keyed stored,
      total_nothing (delete p f.entries) others,
    )

IsFront : ℕ → Bytes → Atom → FrontierCache → Type 0
IsFront e p a f = ((ns : Nodes) × (f.lru_list.nodes ≡ (e, p) ∷ ns)) × (lookup p f.entries ≡ some a)

evict_back-IsFront :
    (e d : ℕ) (p q : Bytes) (a : Atom) (target : ℕ) (f : FrontierCache)
    → IsValid f
    → IsFront e p a f
    → estimate_atom_bytes p a ≤ target
    → target < f.current_bytes
    → back f.lru_list.nodes ≡ some (d, q)
    → IsFront e p a (evict_back d q f)
unfolding back delete dropped IsFront
evict_back-IsFront e d p q a target f v (([], shape), stored) fits over h =
    absurd (omega (arith, alone p a e f v shape stored))
evict_back-IsFront e d p q a target f v ((n ∷ ns, shape), stored) fits over h =
    let (at, b, found) = last_entry f d q v h in
    let last : back (n ∷ ns) ≡ some (d, q) = sym (ap back shape) ∙ h in
    let unique : Distinct (paths ((e, p) ∷ n ∷ ns)) = rw shape at v.unique in
    let distinct : Distinct (keys ((e, p) ∷ n ∷ ns)) = rw shape at v.sound.distinct in
    let there = address-back (n ∷ ns) unique.1 last in
    let d-apart : (e == d) ≡ false =
      ground (arith, elem-address q d (n ∷ ns) there, ==_iff e d, distinct.0) in
    let q-apart : (q == p) ≡ false =
      ground (arith, elem-paths-address q (n ∷ ns), there, ==_iff q p, unique.0) in
    rw (evict_back-dropped d q b f found) (
      (delete d (n ∷ ns), ap (delete d) shape ∙ rw d-apart refl),
      lookup-delete q p f.entries ∙ rw q-apart stored,
    )

evict_loop-IsFront :
    (fuel target e : ℕ) (p : Bytes) (a : Atom) (f : FrontierCache)
    → IsValid f
    → IsFront e p a f
    → estimate_atom_bytes p a ≤ target
    → IsFront e p a (evict_loop fuel target f)
unfolding evict_loop
evict_loop-IsFront zero target e p a f v front fits = front
evict_loop-IsFront (suc fuel) target e p a f v front fits =
    elim (Bool-cases (ltb target f.current_bytes)) [
      | inr n ↦ rw (n, evict_loop) front
      | inl m ↦ elim (Option-cases (back f.lru_list.nodes)) [
        | inl n ↦ rw (m, n, evict_loop) front
        | inr ((d, q), h) ↦
            let next = evict_back-IsFront e d p q a target f v front fits (ground (arith, m)) h in
            rw (m, h, evict_loop)
              (evict_loop-IsFront fuel target e p a (evict_back d q f)
                (evict_back-IsValid d q f v h) next fits)
      ]
    ]

front : (p : Bytes) (a : Atom) (f : FrontierCache) → IsFront f.lru_list.fresh p a (store_atom p a f)
unfolding store_atom IsFront
front p a f = ((f.lru_list.nodes, refl), lookup-insert p p a f.entries ∙ rw (==_refl p) refl)

module _ (os : Platform) where
  enforce_ceiling-IsUnder :
      (f : FrontierCache)
      → IsValid f
      → 0 < f.max_memory_bytes
      → IsValid (enforce_ceiling os f)
        × IsUnder os (enforce_ceiling os f)
        × (enforce_ceiling os f).clock ≡ f.clock
  unfolding enforce_ceiling IsUnder
  enforce_ceiling-IsUnder f v limited =
      let fuel = length f.lru_list.nodes in
      let target = os.eighty_percent f.max_memory_bytes in
      let (w, low) = evict_loop-IsValid fuel target f v (omega arith) in
      let (same, tick) = evict_loop-kept fuel target f in
      let on : ltb 0 f.max_memory_bytes ≡ true = ground arith in
      elim (Bool-cases (leb (os.ninety_percent f.max_memory_bytes) f.current_bytes)) [
        | inl m ↦ rw (on, m) (w, inr (rw same low), tick)
        | inr n ↦ rw (on, n) (v, inl (ground (arith, n)), refl)
      ]

  enforce_ceiling-front :
      (e : ℕ) (p : Bytes) (a : Atom) (f : FrontierCache)
      → IsValid f
      → IsFront e p a f
      → estimate_atom_bytes p a ≤ os.eighty_percent f.max_memory_bytes
      → lookup p (enforce_ceiling os f).entries ≡ some a
  unfolding enforce_ceiling IsFront
  enforce_ceiling-front e p a f v front fits =
      elim (Bool-cases
        (ltb 0 f.max_memory_bytes && leb (os.ninety_percent f.max_memory_bytes) f.current_bytes)) [
          | inl m ↦
              rw (m, enforce_ceiling)
                (evict_loop-IsFront (length f.lru_list.nodes) (os.eighty_percent f.max_memory_bytes)
                  e p a f v front fits).1
          | inr n ↦ rw (n, enforce_ceiling) front.1
        ]

  abbrev pub placed : Expr → Bytes → Time → Time → FrontierCache → FrontierCache
  placed expr path expires_at now f =
      store_atom path (new_atom os expr path expires_at now (suc f.clock))
        (record (forget_old path f) { clock = suc f.clock })

  placed-limit :
      (expr : Expr) (path : Bytes) (expires_at now : Time) (f : FrontierCache)
      → (placed expr path expires_at now f).max_memory_bytes ≡ f.max_memory_bytes
  unfolding store_atom
  placed-limit expr path expires_at now f = forget_old-kept path f

  -- For a valid cache with a memory limit, AppendAtom gives a valid cache: the entries, the list and its
  -- index hold the same paths, and the byte count is the sum over the entries. The byte count is then
  -- under 90% of the limit or at most 80% of it, and the clock is one further.
  pub append_atom-IsValid :
      (expr : Expr) (path : Bytes) (expires_at now : Time) (f : FrontierCache)
      → IsValid f
      → 0 < f.max_memory_bytes
      → let g = (append_atom os expr path expires_at now f).0 in
        IsValid g × IsUnder os g × g.clock ≡ suc f.clock
  unfolding append_atom
  append_atom-IsValid expr path expires_at now f v limited =
      let a = new_atom os expr path expires_at now (suc f.clock) in
      enforce_ceiling-IsUnder (placed expr path expires_at now f)
        (store_atom-forget_old path a (suc f.clock) f v)
        (rw (placed-limit expr path expires_at now f) limited)

  -- For a valid cache, the atom that AppendAtom makes is the entry of its path afterwards, and
  -- not evicted at once, if its size alone is at most 80% of the limit.
  pub append_atom-entry :
      (expr : Expr) (path : Bytes) (expires_at now : Time) (f : FrontierCache)
      → IsValid f
      → estimate_atom_bytes path (new_atom os expr path expires_at now (suc f.clock))
        ≤ os.eighty_percent f.max_memory_bytes
      → lookup path (append_atom os expr path expires_at now f).0.entries
        ≡ some (new_atom os expr path expires_at now (suc f.clock))
  unfolding append_atom
  append_atom-entry expr path expires_at now f v fits =
      let a = new_atom os expr path expires_at now (suc f.clock) in
      let g = placed expr path expires_at now f in
      enforce_ceiling-front (forget_old path f).lru_list.fresh path a g
        (store_atom-forget_old path a (suc f.clock) f v)
        (front path a (record (forget_old path f) { clock = suc f.clock }))
        (rw (placed-limit expr path expires_at now f) fits)

  -- AppendAtom keeps the limit.
  pub append_atom-limit :
      (expr : Expr) (path : Bytes) (expires_at now : Time) (f : FrontierCache)
      → (append_atom os expr path expires_at now f).0.max_memory_bytes ≡ f.max_memory_bytes
  unfolding append_atom enforce_ceiling
  append_atom-limit expr path expires_at now f =
      let g = placed expr path expires_at now f in
      if_cases (λ (h : FrontierCache). h.max_memory_bytes ≡ f.max_memory_bytes)
        (ltb 0 g.max_memory_bytes && leb (os.ninety_percent g.max_memory_bytes) g.current_bytes) _ _
        ((evict_loop-kept (length g.lru_list.nodes) (os.eighty_percent g.max_memory_bytes) g).0
          ∙ placed-limit expr path expires_at now f)
        (placed-limit expr path expires_at now f)
