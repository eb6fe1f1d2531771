-- ===== src/Storage/FrontierCache/Sweep.antt =====
-- The sweep of expired entries of FrontierCache, on a snapshot that may be out of date.
use wavicle.Prelude.{
  Bytes, ◌≡◌, refl, ap, ◌∙◌, Bool, true, false, ◌==◌, ==_iff, ==_refl, nat_eq, bytes_eq, ◌||◌, ◌&&◌,
  if◌then◌else◌, Option, none, some, [], ◌∷◌, arith, Bool-cases, Option-cases, inl, inr, Dict, keys,
  lookup, delete, elem, Distinct, lookup-delete,
}
use wavicle.Core.{Hash, Atom, Time}
use wavicle.Storage.FrontierCache.{
  FrontierCache, expired, unexpired, unlink, collect_expired, sweep_one, sweep,
}
use wavicle.Storage.FrontierCache.Drop.{IsValid, dropped, dropped-IsValid, present_address}

-- Whether the snapshot has this pair.
unfoldable pub collected : Bytes → Hash → Dict Bytes Hash → Bool
collected p h [] = false
collected p h ((q, i) ∷ c) = (q == p) && (h == i) || collected p h c

abbrev pub spared : Bytes → Dict Bytes Hash → Option Atom → Option Atom
spared p c none = none
spared p c (some a) = if collected p a.hash c then none else some a

unlink-entries : (p : Bytes) (f : FrontierCache) → (unlink p f).entries ≡ f.entries
unfolding unlink
unlink-entries p f = elim (Option-cases (lookup p f.lru_nodes)) [
  | inl n ↦ rw (n, unlink) refl
  | inr (e, h) ↦ rw (h, unlink) refl
]

sweep_one-IsValid :
    (p : Bytes) (h : Hash) (f : FrontierCache) → IsValid f → IsValid (sweep_one p h f)
unfolding sweep_one unlink
sweep_one-IsValid p h f v = elim (Option-cases (lookup p f.entries)) [
  | inl n ↦ rw (n, sweep_one) v
  | inr (a, stored) ↦ elim (Bool-cases (a.hash == h)) [
    | inr other ↦ rw (stored, other, sweep_one) v
    | inl same ↦
        let (e, at) = present_address f p v stored in
        rw (stored, same, v.index p ∙ at, sweep_one, unlink)
          (unfold dropped in dropped-IsValid e p a (delete h f.hash_to_path) f v at stored)
  ]
]

removed :
    (p q : Bytes) (h : Hash) (a : Atom) (f : FrontierCache)
    → lookup p f.entries ≡ some a
    → (a.hash == h) ≡ true
    → (if p == q then none else lookup q f.entries) ≡ spared q ((p, h) ∷ []) (lookup q f.entries)
unfolding collected
removed p q h a f stored same = elim (Bool-cases (p == q)) [
  | inl m ↦ let e = (==_iff p q).0 m in rw (m, ← e, stored) (ground (arith, same, ==_refl p))
  | inr n ↦ elim (Option-cases (lookup q f.entries)) [
    | inl m ↦ rw (n, m) refl
    | inr (b, m) ↦ rw (n, m) (ground (arith, n))
  ]
]

sweep_one-lookup :
    (p q : Bytes) (h : Hash) (f : FrontierCache)
    → lookup q (sweep_one p h f).entries ≡ spared q ((p, h) ∷ []) (lookup q f.entries)
unfolding sweep_one collected
sweep_one-lookup p q h f = elim (Option-cases (lookup p f.entries)) [
  | inl n ↦
      rw (n, sweep_one)
        (elim (Option-cases (lookup q f.entries)) [
          | inl m ↦ rw m refl
          | inr (b, m) ↦ rw m (ground (arith, ==_iff p q, n, m))
        ])
  | inr (a, stored) ↦ elim (Bool-cases (a.hash == h)) [
    | inl same ↦
        rw (stored, same, sweep_one)
          (ap (λ m. lookup q (delete p m)) (unlink-entries p _)
            ∙ lookup-delete p q f.entries
            ∙ removed p q h a f stored same)
    | inr other ↦
        rw (stored, other, sweep_one)
          (elim (Option-cases (lookup q f.entries)) [
            | inl m ↦ rw m refl
            | inr (b, m) ↦ rw m (ground (arith, ==_iff p q, stored, m))
          ])
  ]
]

spared-cons :
    (p q : Bytes) (h : Hash) (c : Dict Bytes Hash) (x : Option Atom)
    → spared q c (spared q ((p, h) ∷ []) x) ≡ spared q ((p, h) ∷ c) x
unfolding collected
spared-cons p q h c none = refl
spared-cons p q h c (some a) = ground arith

sweep-lookup :
    (q : Bytes) (c : Dict Bytes Hash) (f : FrontierCache)
    → lookup q (sweep c f).entries ≡ spared q c (lookup q f.entries)
unfolding sweep collected
sweep-lookup q [] f = elim (Option-cases (lookup q f.entries)) [
  | inl n ↦ rw n refl
  | inr (a, m) ↦ rw m refl
]
sweep-lookup q ((p, h) ∷ c) f =
    sweep-lookup q c (sweep_one p h f)
    ∙ ap (spared q c) (sweep_one-lookup p q h f)
    ∙ spared-cons p q h c (lookup q f.entries)

kept : (c : Dict Bytes Hash) (f : FrontierCache) → IsValid f → IsValid (sweep c f)
unfolding sweep
kept [] f v = v
kept ((p, h) ∷ c) f v = kept c (sweep_one p h f) (sweep_one-IsValid p h f v)

-- For a valid cache and any snapshot of paths and hashes, the sweep gives a valid cache, in which
-- an entry is gone exactly if the snapshot has its path with its present hash.
pub sweep-IsValid :
    (c : Dict Bytes Hash) (f : FrontierCache)
    → IsValid f
    → IsValid (sweep c f)
      × ((q : Bytes) → lookup q (sweep c f).entries ≡ spared q c (lookup q f.entries))
sweep-IsValid c f v = (kept c f v, λ q. sweep-lookup q c f)

collected_absent :
    (p : Bytes) (h : Hash) (now : Time) (m : Dict Bytes Atom)
    → elem p (keys m) ≡ false
    → collected p h (collect_expired now m) ≡ false
unfolding collect_expired collected elem
collected_absent p h now [] n = refl
collected_absent p h now ((q, a) ∷ m) n = ground (arith, collected_absent p h now m)

collected-collect_expired :
    (p : Bytes) (a : Atom) (now : Time) (m : Dict Bytes Atom)
    → Distinct (keys m)
    → lookup p m ≡ some a
    → collected p a.hash (collect_expired now m) ≡ expired now a
unfolding collect_expired collected lookup
collected-collect_expired p a now [] d h = absurd (ground arith)
collected-collect_expired p a now ((q, b) ∷ m) d h = elim (Bool-cases (q == p)) [
  | inl e ↦
      let stored : b ≡ a = ground arith in
      let missing : collected p a.hash (collect_expired now m) ≡ false =
        collected_absent p a.hash now m (rw ((==_iff q p).0 e) at d.0) in
      rw stored (ground (arith, e, missing, ==_refl a.hash))
  | inr n ↦ ground (arith, n, h, collected-collect_expired p a now m d.1)
]

-- For a valid cache, a sweep at time `now` of what was collected at `now` from the same entries
-- removes exactly the expired atoms.
sweep-collect_expired :
    (now : Time) (f : FrontierCache) (q : Bytes)
    → IsValid f
    → lookup q (sweep (collect_expired now f.entries) f).entries
      ≡ unexpired now (lookup q f.entries)
unfolding unexpired
sweep-collect_expired now f q v =
    sweep-lookup q (collect_expired now f.entries) f ∙ elim (Option-cases (lookup q f.entries)) [
      | inl n ↦ rw n refl
      | inr (a, stored) ↦
          rw (stored, collected-collect_expired q a now f.entries v.keyed stored) refl
    ]
