-- ===== src/Storage/Crystal/Compaction.antt =====
-- Compact and evictIfNeeded of internal/storage/crystal.go: the current atoms stay.
use wavicle.Prelude.{
  ℕ, zero, suc, Bytes, bytes_eq, ◌≡◌, refl, ap, ◌∙◌, arith, true, false, ◌==◌, ==_iff, Bool-cases,
  if_cases, Option, some, Option-cases, inl, inr, List, [], ◌∷◌, elem, Dict, keys, lookup,
  lookup-delete, length, Outcome-cases, ltb, ◌/◌,
}
use wavicle.Core.{Hash, Atom}
use wavicle.Storage.Wal
use wavicle.Storage.Wal.{Faults}
use wavicle.Storage.Crystal.{
  Indexes, Crystal, frontier_hashes, drop_atom, drop_orphans, evict_if_needed, get_atom,
  get_current_hash, get_current, alive_atoms, hashes_of, compact, max_atom_cache_entries,
}

-- the frontier stays, and so do the atoms under the hashes that are live
abbrev Keeps : List Hash → Indexes → Indexes → Type 0
Keeps live x y =
    (y.frontier ≡ x.frontier)
    × ((h : Hash) → elem h live ≡ true → lookup h y.atoms ≡ lookup h x.atoms)

drop_atom-Keeps :
    (live : List Hash) (h : Hash) (x : Indexes) → elem h live ≡ false → Keeps live x (drop_atom h x)
unfolding drop_atom
drop_atom-Keeps live h x dead = (
  refl,
  λ k alive. elim (Bool-cases (h == k)) [
    | inl e ↦
        let same : h ≡ k = (==_iff h k).0 e in
        absurd (ground (arith, dead, alive, ap (λ j. elem j live) same))
    | inr n ↦ lookup-delete h k x.atoms ∙ rw n refl
  ],
)

drop_orphans-Keeps :
    (live : List Hash) (n : ℕ) (hs : List Hash) (x : Indexes)
    → Keeps live x (drop_orphans live n hs x)
unfolding drop_orphans
drop_orphans-Keeps live zero hs x = (refl, λ h e. refl)
drop_orphans-Keeps live (suc n) [] x = (refl, λ h e. refl)
drop_orphans-Keeps live (suc n) (h ∷ hs) x = elim (Bool-cases (elem h live)) [
  | inl alive ↦ rw (alive, drop_orphans) (drop_orphans-Keeps live (suc n) hs x)
  | inr dead ↦
      let (f, a) = drop_orphans-Keeps live n hs (drop_atom h x) in
      let (g, b) = drop_atom-Keeps live h x dead in
      rw (dead, drop_orphans) (f ∙ g, λ k e. a k e ∙ b k e)
]

lookup-frontier_hashes :
    (p : Bytes) (h : Hash) (frontier : Dict Bytes Hash)
    → lookup p frontier ≡ some h
    → elem h (frontier_hashes frontier) ≡ true
unfolding lookup elem
lookup-frontier_hashes p h [] e = absurd (ground (arith, e))
lookup-frontier_hashes p h ((q, k) ∷ frontier) e = elim (Bool-cases (q == p)) [
  | inl y ↦ ground (arith, ==_iff k h)
  | inr n ↦ ground (arith, lookup-frontier_hashes p h frontier)
]

get_current-Keeps :
    (p : Bytes) (x y : Indexes)
    → Keeps (frontier_hashes x.frontier) x y
    → get_current p y ≡ get_current p x
unfolding get_current get_current_hash get_atom
get_current-Keeps p x y (f, a) = elim (Option-cases (lookup p x.frontier)) [
  | inl n ↦ rw (get_current, f, n) refl
  | inr (h, e) ↦ rw (get_current, f, e) (a h (lookup-frontier_hashes p h x.frontier e))
]

-- Neither evictIfNeeded nor Compact, whatever its Rewrite fails at, changes what GetCurrent and GetCurrentHash answer
-- for any path.
pub compact-get_current :
    (marshal : Atom → Option Bytes) (faults : Faults) (c : Crystal) (p : Bytes)
    → (get_current p (compact marshal faults c).indexes ≡ get_current p c.indexes)
      × (get_current_hash p (compact marshal faults c).indexes ≡ get_current_hash p c.indexes)
      × (get_current p (evict_if_needed c.indexes) ≡ get_current p c.indexes)
      × (get_current_hash p (evict_if_needed c.indexes) ≡ get_current_hash p c.indexes)
unfolding compact evict_if_needed get_current_hash
compact-get_current marshal faults c p =
    let x = c.indexes in
    let alive = alive_atoms (keys x.frontier) x in
    let cleared : Indexes = record x { leaves = hashes_of alive } in
    let kept =
      drop_orphans-Keeps (frontier_hashes x.frontier) (length x.atoms) (keys x.atoms) cleared in
    let evicted =
      if_cases (Keeps (frontier_hashes x.frontier) x) (ltb x.atom_count max_atom_cache_entries) x _
        (refl, λ h e. refl)
        (drop_orphans-Keeps (frontier_hashes x.frontier) (x.atom_count / 10) (keys x.atoms) x) in
    let rest = drop_orphans (frontier_hashes x.frontier) (length x.atoms) (keys x.atoms) cleared in
    let eviction = get_current-Keeps p x (evict_if_needed x) evicted in
    let hash = ap (lookup p) evicted.0 in
    elim (Outcome-cases (Wal.rewrite marshal faults alive c.wal).1) [
      | inl (e, h) ↦ rw (compact, h) (refl, refl, eviction, hash)
      | inr (a, h) ↦
          rw (compact, h) (get_current-Keeps p x rest kept, ap (lookup p) kept.0, eviction, hash)
    ]
