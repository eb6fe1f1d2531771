-- ===== src/Storage/FrontierCache/Recency.antt =====
-- The list of paths by recency, and the sizes of the entries.
use wavicle.Prelude.{
  ℕ, ◌+◌, Bytes, ◌≡◌, refl, true, false, ◌==◌, ==_iff, ==_refl, nat_eq, bytes_eq, if◌then◌else◌,
  is_some, Option, none, some, List, [], ◌∷◌, map, arith, Bool-cases, inl, inr, Dict, keys, lookup,
  delete, elem, Distinct, delete_new, back,
}
use wavicle.Core.{Atom}
use wavicle.Storage.FrontierCache.{estimate_atom_bytes}

abbrev pub Nodes : Type 0
Nodes = Dict ℕ Bytes

abbrev pub paths : Nodes → List Bytes
paths = map (λ n. n.1)

unfoldable pub address : Bytes → Nodes → Option ℕ
address p [] = none
address p ((e, q) ∷ ns) = if q == p then some e else address p ns

pub elem-address :
    (p : Bytes) (e : ℕ) (ns : Nodes) → address p ns ≡ some e → elem e (keys ns) ≡ true
unfolding address elem
elem-address p e [] h = ground arith
elem-address p e ((d, q) ∷ ns) h = ground (arith, elem-address p e ns, ==_refl d)

pub address_new : (p : Bytes) (ns : Nodes) → elem p (paths ns) ≡ false → address p ns ≡ none
unfolding address elem
address_new p [] h = refl
address_new p ((e, q) ∷ ns) h = ground (arith, address_new p ns)

pub elem-paths-address : (p : Bytes) (ns : Nodes) → elem p (paths ns) ≡ is_some (address p ns)
unfolding address elem
elem-paths-address p [] = refl
elem-paths-address p ((e, q) ∷ ns) = ground (arith, elem-paths-address p ns)

pub lookup-address :
    (p : Bytes) (e : ℕ) (ns : Nodes)
    → Distinct (keys ns)
    → address p ns ≡ some e
    → lookup e ns ≡ some p
unfolding address lookup
lookup-address p e [] d h = absurd (ground arith)
lookup-address p e ((i, q) ∷ ns) d h = elim (Bool-cases (q == p)) [
  | inl m ↦ ground (arith, ==_iff q p, ==_refl i)
  | inr n ↦
      let at : address p ns ≡ some e = ground arith in
      ground (arith, lookup-address p e ns d.1 at, elem-address p e ns at, ==_iff i e)
]

pub address-delete :
    (p j : Bytes) (e : ℕ) (ns : Nodes)
    → Distinct (keys ns)
    → Distinct (paths ns)
    → address p ns ≡ some e
    → address j (delete e ns) ≡ (if p == j then none else address j ns)
unfolding address delete
address-delete p j e [] d u h = absurd (ground arith)
address-delete p j e ((i, c) ∷ ns) d u h = elim (Bool-cases (c == p)) [
  | inl m ↦
      ground
        (arith, delete_new i ns, address_new c ns, ==_iff c p, ==_iff p j, ==_iff c j, ==_refl i)
  | inr n ↦
      let at : address p ns ≡ some e = ground arith in
      let other : (i == e) ≡ false = ground (arith, elem-address p e ns at, ==_iff i e) in
      ground
        (arith, n, other, ==_iff p j, ==_iff c j, ==_iff c p, address-delete p j e ns d.1 u.1 at)
]

elem-paths-delete :
    (q : Bytes) (e : ℕ) (ns : Nodes)
    → elem q (paths ns) ≡ false
    → elem q (paths (delete e ns)) ≡ false
unfolding elem delete
elem-paths-delete q e [] h = refl
elem-paths-delete q e ((i, c) ∷ ns) h = ground (arith, elem-paths-delete q e ns)

pub paths-delete-Distinct :
    (e : ℕ) (ns : Nodes) → Distinct (paths ns) → Distinct (paths (delete e ns))
unfolding delete
paths-delete-Distinct e [] u = tt
paths-delete-Distinct e ((i, c) ∷ ns) (n, u) = elim (Bool-cases (i == e)) [
  | inl m ↦ rw m (paths-delete-Distinct e ns u)
  | inr m ↦ rw m (elem-paths-delete c e ns n, paths-delete-Distinct e ns u)
]

pub address-back :
    (ns : Nodes) {e : ℕ} {p : Bytes}
    → Distinct (paths ns)
    → back ns ≡ some (e, p)
    → address p ns ≡ some e
unfolding back address
address-back [] u h = absurd (ground arith)
address-back ((i, q) ∷ []) {p = p} u h = ground (arith, ==_refl p)
address-back ((i, q) ∷ n ∷ ns) {e} {p} u h =
    let at = address-back (n ∷ ns) u.1 h in ground (arith, at, address_new q (n ∷ ns), ==_iff q p)

pub back-nil : (ns : Nodes) → back ns ≡ none → ns ≡ []
unfolding back
back-nil [] h = refl
back-nil (n ∷ []) h = absurd (ground arith)
back-nil (n ∷ m ∷ ns) h = absurd (cc (back-nil (m ∷ ns) h))

-- the bytes that the entries count for
unfoldable pub total : Dict Bytes Atom → ℕ
total [] = 0
total ((p, a) ∷ m) = estimate_atom_bytes p a + total m

pub total-delete :
    (p : Bytes) (a : Atom) (m : Dict Bytes Atom)
    → Distinct (keys m)
    → lookup p m ≡ some a
    → total (delete p m) + estimate_atom_bytes p a ≡ total m
unfolding total lookup delete
total-delete p a [] d h = absurd (ground arith)
total-delete p a ((q, b) ∷ m) d h = elim (Bool-cases (q == p)) [
  | inl e ↦
      let same = (==_iff q p).0 e in
      let stored : b ≡ a = ground arith in
      rw (e, delete_new p m (rw same at d.0), ← same, ← stored) (omega arith)
  | inr n ↦
      let more : lookup p m ≡ some a = ground arith in
      rw n (omega (arith, total-delete p a m d.1 more))
]

pub total_nothing : (m : Dict Bytes Atom) → ((p : Bytes) → lookup p m ≡ none) → total m ≡ 0
unfolding total lookup
total_nothing [] h = refl
total_nothing ((q, b) ∷ m) h = absurd (ground (arith, h q, ==_refl q))
