-- ===== src/Engine/ProofCache/Nodes.antt =====
-- The nodes of a shard's list, read as a recency list of (key, proof).
use wavicle.Prelude.{
  ℕ, suc, ◌-◌, ◌≡◌, refl, ap, true, false, ◌==◌, ==_iff, ==_refl, nat_eq, bytes_eq, if◌then◌else◌,
  Option, none, some, [], ◌∷◌, map, arith, Bool-cases, inl, inr, Dict, keys, lookup, delete, length,
  elem, Distinct, delete_new, back,
}
use wavicle.Core.{Hash}

abbrev pub Nodes {ℓ} : Type ℓ → Type ℓ
Nodes P = Dict ℕ (Hash × P)

module _ {ℓ} {P : Type ℓ} where
  -- the entries, the most recent first
  abbrev pub recency : Nodes P → Dict Hash P
  recency = map (λ n. n.1)

  -- the address of the first node with a key
  unfoldable pub address : Hash → Nodes P → Option ℕ
  address k [] = none
  address k ((e, (j, p)) ∷ ns) = if j == k then some e else address k ns

  pub elem-address :
      (k : Hash) (e : ℕ) (ns : Nodes P) → address k ns ≡ some e → elem e (keys ns) ≡ true
  unfolding address elem
  elem-address k e [] h = ground arith
  elem-address k e ((d, (j, p)) ∷ ns) h = ground (arith, elem-address k e ns, ==_refl d)

  -- an address leads to the entry of its key
  pub lookup-address :
      (k : Hash) (e : ℕ) (ns : Nodes P)
      → Distinct (keys ns)
      → address k ns ≡ some e
      → (p : P) × (lookup e ns ≡ some (k, p)) × (lookup k (recency ns) ≡ some p)
  unfolding address lookup
  lookup-address k e [] d h = absurd (ground arith)
  lookup-address k e ((i, (j, p)) ∷ ns) d h = elim (Bool-cases (j == k)) [
    | inl m ↦ (p, ground (arith, ==_iff j k, ==_refl i), ground arith)
    | inr n ↦
        let at : address k ns ≡ some e = ground arith in
        let (q, found, read) = lookup-address k e ns d.1 at in
        (q, ground (arith, found, elem-address k e ns at, ==_iff i e), ground arith)
  ]

  pub address-eq-none :
      (k : Hash) (ns : Nodes P) → address k ns ≡ none → lookup k (recency ns) ≡ none
  unfolding address lookup
  address-eq-none k [] h = refl
  address-eq-none k ((i, (j, p)) ∷ ns) h = ground (arith, address-eq-none k ns)

  -- dropping a node drops its entry
  pub recency-delete :
      (k : Hash) (e : ℕ) (ns : Nodes P)
      → Distinct (keys ns)
      → Distinct (keys (recency ns))
      → address k ns ≡ some e
      → recency (delete e ns) ≡ delete k (recency ns)
  unfolding address delete
  recency-delete k e [] d u h = refl
  recency-delete k e ((i, (j, p)) ∷ ns) d u h = elim (Bool-cases (j == k)) [
    | inl m ↦ ground (arith, delete_new i ns, delete_new j (recency ns), ==_iff j k, ==_refl i)
    | inr n ↦
        let at : address k ns ≡ some e = ground arith in
        ground (arith, n, elem-address k e ns at, ==_iff i e, recency-delete k e ns d.1 u.1 at)
  ]

  address_new : (k : Hash) (ns : Nodes P) → elem k (keys (recency ns)) ≡ false → address k ns ≡ none
  unfolding address elem
  address_new k [] h = refl
  address_new k ((i, (j, p)) ∷ ns) h = ground (arith, address_new k ns)

  pub address-delete :
      (k j : Hash) (e : ℕ) (ns : Nodes P)
      → Distinct (keys ns)
      → Distinct (keys (recency ns))
      → address k ns ≡ some e
      → address j (delete e ns) ≡ (if k == j then none else address j ns)
  unfolding address delete
  address-delete k j e [] d u h = absurd (ground arith)
  address-delete k j e ((i, (c, p)) ∷ ns) d u h = elim (Bool-cases (c == k)) [
    | inl m ↦
        ground
          (arith, delete_new i ns, address_new c ns, ==_iff c k, ==_iff k j, ==_iff c j, ==_refl i)
    | inr n ↦
        let at : address k ns ≡ some e = ground arith in
        let other : (i == e) ≡ false = ground (arith, elem-address k e ns at, ==_iff i e) in
        ground
          (arith, n, other, ==_iff k j, ==_iff c j, ==_iff c k, address-delete k j e ns d.1 u.1 at)
  ]

  pub address-back :
      (ns : Nodes P) {e : ℕ} {k : Hash} {p : P}
      → Distinct (keys (recency ns))
      → back ns ≡ some (e, (k, p))
      → address k ns ≡ some e
  unfolding back address
  address-back [] u h = absurd (ground arith)
  address-back ((i, (j, q)) ∷ []) {k} u h = ground (arith, ==_refl k)
  address-back ((i, (j, q)) ∷ n ∷ ns) {e} {k} u h =
      let at = address-back (n ∷ ns) u.1 h in ground (arith, at, address_new j (n ∷ ns), ==_iff j k)

  -- the least recent entry
  unfoldable pub drop_last : Dict Hash P → Dict Hash P
  drop_last [] = []
  drop_last (x ∷ []) = []
  drop_last (x ∷ y ∷ l) = x ∷ drop_last (y ∷ l)

  pub delete-back :
      (ns : Nodes P) {e : ℕ} {k : Hash} {p : P}
      → Distinct (keys (recency ns))
      → back ns ≡ some (e, (k, p))
      → delete k (recency ns) ≡ drop_last (recency ns)
  unfolding back delete drop_last
  delete-back [] u h = refl
  delete-back ((i, (j, q)) ∷ []) {k} u h = ground (arith, ==_refl k)
  delete-back ((i, (j, q)) ∷ n ∷ ns) {e} {k} u h =
      let at = address-back (n ∷ ns) u.1 h in
      let other : (j == k) ≡ false = ground (arith, at, address_new j (n ∷ ns), ==_iff j k) in
      rw other (ap (◌∷◌ (j, q)) (delete-back (n ∷ ns) u.1 h))

  pub back-nil : (ns : Nodes P) → back ns ≡ none → ns ≡ []
  unfolding back
  back-nil [] h = refl
  back-nil (n ∷ []) h = absurd (ground arith)
  back-nil (n ∷ m ∷ ns) h = absurd (cc (back-nil (m ∷ ns) h))

  pub length-recency : (ns : Nodes P) → length (recency ns) ≡ length ns
  length-recency [] = refl
  length-recency (n ∷ ns) = ap suc (length-recency ns)

  pub length-drop_last : (l : Dict Hash P) → length (drop_last l) ≡ length l - 1
  unfolding drop_last
  length-drop_last [] = refl
  length-drop_last (x ∷ []) = refl
  length-drop_last (x ∷ y ∷ l) = omega (arith, length-drop_last (y ∷ l))
