-- ===== src/Cluster/HashRing/Routing.antt =====
-- What a new node changes in the routing of keys.
use wavicle.Prelude.{
  ℕ, Bytes, true, false, leb, ◌≡◌, refl, sym, subst, ◌∙◌, ◌⊎◌, inl, inr, nat_eq, if◌then◌else◌,
  Option, none, some, List, [], ◌∷◌, Dict, lookup, insert, lookup-insert, elem, Bool-cases,
  Option-cases, arith, ==_refl,
}
use wavicle.Cluster.HashRing.{
  HashRing, put_key, put_keys, bind_keys, node_at, first_from, or_first, successor, virtual_keys,
  add, route,
}
use wavicle.Cluster.HashRing.Sorting.{Sorted, sort_keys-append, put_keys-keep}

first_from-put_key :
    (x v : ℕ) (ks : List ℕ)
    → (first_from x (put_key v ks) ≡ first_from x ks) ⊎ (first_from x (put_key v ks) ≡ some v)
unfolding first_from put_key
first_from-put_key x v [] = ground arith
first_from-put_key x v (k ∷ ks) = elim (Bool-cases (leb k v)) [
  | inl m ↦ rw m (elim (Bool-cases (leb x k)) [
    | inl l ↦ rw l (inl refl)
    | inr l ↦ rw l (first_from-put_key x v ks)
  ])
  | inr m ↦ rw m (elim (Bool-cases (leb x v)) [ inl l ↦ rw l (inr refl) | inr l ↦ rw l (inl refl) ])
]

or_first-put_key :
    (o : Option ℕ) (v : ℕ) (ks : List ℕ)
    → (or_first o (put_key v ks) ≡ or_first o ks) ⊎ (or_first o (put_key v ks) ≡ some v)
unfolding or_first put_key
or_first-put_key (some k) v ks = inl refl
or_first-put_key none v [] = inr refl
or_first-put_key none v (k ∷ ks) = elim (Bool-cases (leb k v)) [
  | inl m ↦ rw m (inl refl)
  | inr m ↦ rw m (inr refl)
]

-- A key put among others takes the place of the successor or leaves it.
successor-put_key :
    (x v : ℕ) (ks : List ℕ)
    → (successor x (put_key v ks) ≡ successor x ks) ⊎ (successor x (put_key v ks) ≡ some v)
unfolding successor
successor-put_key x v ks = elim (first_from-put_key x v ks) [
  | inl e ↦ rw e (or_first-put_key (first_from x ks) v ks)
  | inr e ↦ rw e (inr (unfold or_first in refl))
]

elem-head : (v : ℕ) (vs : List ℕ) → elem v (v ∷ vs) ≡ true
unfolding elem
elem-head v vs = rw (==_refl v) refl

elem-tail : (w v : ℕ) (vs : List ℕ) → elem w vs ≡ true → elem w (v ∷ vs) ≡ true
unfolding elem
elem-tail w v vs m = rw m (ground arith)

-- the same for many keys
successor-put_keys :
    (x : ℕ) (ks vs : List ℕ)
    → (successor x (put_keys ks vs) ≡ successor x ks)
      ⊎ ((v : ℕ) × (elem v vs ≡ true) × (successor x (put_keys ks vs) ≡ some v))
unfolding put_keys
successor-put_keys x ks [] = inl refl
successor-put_keys x ks (v ∷ vs) = elim (successor-put_keys x (put_key v ks) vs) [
  | inr (w, m, e) ↦ inr (w, elem-tail w v vs m, e)
  | inl same ↦ elim (successor-put_key x v ks) [
    | inl e ↦ inl (same ∙ e)
    | inr e ↦ inr (v, elem-head v vs, same ∙ e)
  ]
]

lookup-bind_keys :
    (k : ℕ) (node : Bytes) (vs : List ℕ) (m : Dict ℕ Bytes)
    → lookup k (bind_keys node vs m) ≡ (if elem k vs then some node else lookup k m)
unfolding bind_keys elem
lookup-bind_keys k node [] m = refl
lookup-bind_keys k node (v ∷ vs) m =
    lookup-bind_keys k node vs (insert v node m) ∙ ground (arith, lookup-insert v k node m)

node_at-own :
    (k : ℕ) (node : Bytes) (vs : List ℕ) (m : Dict ℕ Bytes)
    → elem k vs ≡ true
    → node_at k (bind_keys node vs m) ≡ node
unfolding node_at
node_at-own k node vs m e = rw (node_at, lookup-bind_keys k node vs m, e) refl

node_at-other :
    (k : ℕ) (node : Bytes) (vs : List ℕ) (m : Dict ℕ Bytes)
    → elem k vs ≡ false
    → node_at k (bind_keys node vs m) ≡ node_at k m
unfolding node_at
node_at-other k node vs m e = rw (node_at, lookup-bind_keys k node vs m, e) refl

node_at-bind_keys :
    (k : ℕ) (node : Bytes) (vs : List ℕ) (m : Dict ℕ Bytes)
    → (node_at k (bind_keys node vs m) ≡ node_at k m) ⊎ (node_at k (bind_keys node vs m) ≡ node)
node_at-bind_keys k node vs m = elim (Bool-cases (elem k vs)) [
  | inl e ↦ inr (node_at-own k node vs m e)
  | inr e ↦ inl (node_at-other k node vs m e)
]

-- the node of the key that x belongs to
at_key : Option ℕ → Dict ℕ Bytes → Bytes
at_key none m = []
at_key (some k) m = node_at k m

module _ (xxhash : Bytes → ℕ) where
  route-at_key :
      (key : Bytes) (h : HashRing)
      → route xxhash key h ≡ at_key (successor (xxhash key) h.keys) h.nodes
  unfolding route at_key
  route-at_key key h = elim (Option-cases (successor (xxhash key) h.keys)) [
    | inl e ↦ rw (route, e) refl
    | inr (k, e) ↦ rw (route, e) refl
  ]

  at_key-bind_keys :
      (o : Option ℕ) (node : Bytes) (vs : List ℕ) (m : Dict ℕ Bytes)
      → (at_key o (bind_keys node vs m) ≡ at_key o m) ⊎ (at_key o (bind_keys node vs m) ≡ node)
  unfolding at_key
  at_key-bind_keys none node vs m = inl refl
  at_key-bind_keys (some k) node vs m = node_at-bind_keys k node vs m

  routed :
      (key node : Bytes) (ks vs : List ℕ) (m : Dict ℕ Bytes)
      → let at = at_key (successor (xxhash key) (put_keys ks vs)) (bind_keys node vs m) in
        (at ≡ at_key (successor (xxhash key) ks) m) ⊎ (at ≡ node)
  routed key node ks vs m = elim (successor-put_keys (xxhash key) ks vs) [
    | inl e ↦ rw e (at_key-bind_keys (successor (xxhash key) ks) node vs m)
    | inr (v, own, e) ↦ rw e (inr (unfold at_key in node_at-own v node vs m own))
  ]

  -- On a ring whose keys are sorted, Add keeps them sorted, and afterwards every key is routed where
  -- it was before or to the new node.
  pub add-route :
      (node : Bytes) (h : HashRing)
      → Sorted h.keys
      → Sorted (add xxhash node h).keys
        × ((key : Bytes)
            → (route xxhash key (add xxhash node h) ≡ route xxhash key h)
              ⊎ (route xxhash key (add xxhash node h) ≡ node))
  unfolding add
  add-route node h sorted =
      let vs = virtual_keys xxhash node 0 h.replicas in
      let keys = sort_keys-append h.keys vs sorted in
      (
        subst Sorted (sym keys) (put_keys-keep h.keys vs sorted),
        λ key.
            rw (route-at_key key (add xxhash node h), route-at_key key h, keys)
              (routed key node h.keys vs h.nodes),
      )
