-- ===== src/Cluster/HashRing/Sorting.antt =====
-- The keys of a ring are kept in order.
use wavicle.Prelude.{
  ℕ, ◌≤◌, leb, ◌≡◌, refl, sym, ap, ◌∙◌, inl, inr, nat_eq, List, [], ◌∷◌, ◌++◌, All, All-weaken,
  Bool-cases, arith, leb→le, leb_false→lt, append-nil, append_assoc,
}
use wavicle.Cluster.HashRing.{put_key, put_keys, sort_keys}

-- Each key is at most the ones behind it.
unfoldable pub Sorted : List ℕ → Type 0
Sorted [] = Unit
Sorted (k ∷ ks) = All (λ j. k ≤ j) ks × Sorted ks

-- Sorted keys stay where they are.
put_key-last : (ks : List ℕ) (v : ℕ) → All (λ k. k ≤ v) ks → put_key v ks ≡ ks ++ v ∷ []
unfolding put_key
put_key-last [] v h = refl
put_key-last (k ∷ ks) v (low, h) = rw (put_key-last ks v h) (ground arith)

put_keys-append : (ks vs ws : List ℕ) → put_keys ks (vs ++ ws) ≡ put_keys (put_keys ks vs) ws
unfolding put_keys
put_keys-append ks [] ws = refl
put_keys-append ks (v ∷ vs) ws = put_keys-append (put_key v ks) vs ws

below-append :
    (ks : List ℕ) (v w : ℕ) → All (λ k. k ≤ w) ks → v ≤ w → All (λ k. k ≤ w) (ks ++ v ∷ [])
below-append [] v w h l = (l, tt)
below-append (k ∷ ks) v w (low, h) l = (low, below-append ks v w h l)

below-each :
    (ks : List ℕ) (v : ℕ) (vs : List ℕ)
    → All (λ w. v ≤ w) vs
    → All (λ w. All (λ k. k ≤ w) ks) vs
    → All (λ w. All (λ k. k ≤ w) (ks ++ v ∷ [])) vs
below-each ks v [] first low = tt
below-each ks v (w ∷ vs) (l, first) (h, low) =
    (below-append ks v w h l, below-each ks v vs first low)

put_keys-Sorted :
    (ks vs : List ℕ) → Sorted vs → All (λ v. All (λ k. k ≤ v) ks) vs → put_keys ks vs ≡ ks ++ vs
unfolding put_keys Sorted
put_keys-Sorted ks [] h low = sym (append-nil ks)
put_keys-Sorted ks (v ∷ vs) (first, h) (l, low) = rw (put_key-last ks v l) (
    put_keys-Sorted (ks ++ v ∷ []) vs h (below-each ks v vs first low)
    ∙ append_assoc ks (v ∷ []) vs)

below-nothing : (vs : List ℕ) → All (λ v. All (λ k. k ≤ v) []) vs
below-nothing [] = tt
below-nothing (v ∷ vs) = (tt, below-nothing vs)

pub sort_keys-append : (ks vs : List ℕ) → Sorted ks → sort_keys (ks ++ vs) ≡ put_keys ks vs
unfolding sort_keys
sort_keys-append ks vs h =
    put_keys-append [] ks vs
    ∙ ap (λ (js : List ℕ). put_keys js vs) (put_keys-Sorted [] ks h (below-nothing ks))

put_key-All : (P : ℕ → Type 0) (v : ℕ) (ks : List ℕ) → P v → All P ks → All P (put_key v ks)
unfolding put_key
put_key-All P v [] p h = (p, tt)
put_key-All P v (k ∷ ks) p (q, h) = elim (Bool-cases (leb k v)) [
  | inl m ↦ rw m (q, put_key-All P v ks p h)
  | inr m ↦ rw m (p, (q, h))
]

put_key-Sorted : (v : ℕ) (ks : List ℕ) → Sorted ks → Sorted (put_key v ks)
unfolding Sorted put_key
put_key-Sorted v [] h = (tt, tt)
put_key-Sorted v (k ∷ ks) (low, h) = elim (Bool-cases (leb k v)) [
  | inl m ↦ rw m (put_key-All (λ j. k ≤ j) v ks (leb→le k v m) low, put_key-Sorted v ks h)
  | inr m ↦
      let l : v ≤ k = omega (arith, leb_false→lt k v m) in
      rw m ((l, All-weaken (λ j (b : k ≤ j). omega arith) ks low), (low, h))
]

pub put_keys-keep : (ks vs : List ℕ) → Sorted ks → Sorted (put_keys ks vs)
unfolding put_keys
put_keys-keep ks [] h = h
put_keys-keep ks (v ∷ vs) h = put_keys-keep (put_key v ks) vs (put_key-Sorted v ks h)
