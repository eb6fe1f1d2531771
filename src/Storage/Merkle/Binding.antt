-- ===== src/Storage/Merkle/Binding.antt =====
-- A Merkle root binds its leaves: two lists with one root are equal, or they show a collision.
use wavicle.Prelude.{
  ℕ, zero, suc, Bytes, ◌≡◌, ◌≢◌, refl, ap, ◌⊎◌, inl, inr, ◌==◌, ==_iff, bytes_eq, Bool-cases, some,
  List, [], ◌∷◌, ◌++◌, arith, length, All,
}
use wavicle.Core.{Hash}
use wavicle.Storage.Merkle.{next_level, compute_merkle}

append-cancel : (a c b d : Bytes) → length a ≡ length c → a ++ b ≡ c ++ d → (a ≡ c) × (b ≡ d)
append-cancel [] [] b d n e = (refl, e)
append-cancel [] (y ∷ c) b d n e = absurd (omega arith)
append-cancel (x ∷ a) [] b d n e = absurd (omega arith)
append-cancel (x ∷ a) (y ∷ c) b d n e =
    let head : x ≡ y = cc e in
    let tail : a ++ b ≡ c ++ d = cc e in
    let (p, q) = append-cancel a c b d (omega arith) tail in (cc (head, p), q)

abbrev pub IsWide : Hash → Type 0
IsWide h = length h ≡ 32

module _ (sha3 : Bytes → Hash) where
  -- Two texts with one hash.
  pub Collision : Type 0
  Collision = (a : Bytes) × (b : Bytes) × (a ≢ b) × (sha3 a ≡ sha3 b)

  pair_binding :
      (h k h' k' : Hash)
      → IsWide h
      → IsWide h'
      → sha3 (h ++ k) ≡ sha3 (h' ++ k')
      → ((h ≡ h') × (k ≡ k')) ⊎ Collision
  unfolding Collision
  pair_binding h k h' k' w w' e = elim (Bool-cases ((h ++ k) == (h' ++ k'))) [
    | inl same ↦ inl (append-cancel h h' k k' (omega arith) ((==_iff (h ++ k) (h' ++ k')).0 same))
    | inr differ ↦ inr (h ++ k, h' ++ k', ground (arith, ==_iff (h ++ k) (h' ++ k')), e)
  ]

  join :
      (h k h' k' : Hash) {hs ks : List Hash}
      → ((h ≡ h') × (k ≡ k')) ⊎ Collision
      → (hs ≡ ks) ⊎ Collision
      → (h ∷ k ∷ hs ≡ h' ∷ k' ∷ ks) ⊎ Collision
  join h k h' k' (inr c) _ = inr c
  join h k h' k' (inl _) (inr c) = inr c
  join h k h' k' (inl (p, q)) (inl r) = inl (cc (p, q, r))

  level_binding :
      (hs ks : List Hash)
      → length hs ≡ length ks
      → All IsWide hs
      → All IsWide ks
      → next_level sha3 hs ≡ next_level sha3 ks
      → (hs ≡ ks) ⊎ Collision
  unfolding next_level
  level_binding [] [] n w v e = inl refl
  level_binding (h ∷ []) (h' ∷ []) n w v e = inl e
  level_binding (h ∷ k ∷ hs) (h' ∷ k' ∷ ks) n w v e =
      let top : sha3 (h ++ k) ≡ sha3 (h' ++ k') = cc e in
      let rest : next_level sha3 hs ≡ next_level sha3 ks = cc e in
      join h k h' k' (pair_binding h k h' k' w.0 v.0 top)
        (level_binding hs ks (omega arith) w.1.1 v.1.1 rest)
  level_binding hs ks n w v e = absurd (omega arith)

  module _ (sha3-IsWide : (a : Bytes) → IsWide (sha3 a)) where
    next_level-IsWide : (hs : List Hash) → All IsWide hs → All IsWide (next_level sha3 hs)
    unfolding next_level
    next_level-IsWide [] w = tt
    next_level-IsWide (h ∷ []) w = w
    next_level-IsWide (h ∷ k ∷ hs) w = (sha3-IsWide (h ++ k), next_level-IsWide hs w.1.1)

    length-next_level :
        (hs ks : List Hash)
        → length hs ≡ length ks
        → length (next_level sha3 hs) ≡ length (next_level sha3 ks)
    unfolding next_level
    length-next_level [] [] n = refl
    length-next_level (h ∷ []) (h' ∷ []) n = refl
    length-next_level (h ∷ k ∷ hs) (h' ∷ k' ∷ ks) n = ap suc (length-next_level hs ks (omega arith))
    length-next_level hs ks n = absurd (omega arith)

    up :
        (hs ks : List Hash)
        → length hs ≡ length ks
        → All IsWide hs
        → All IsWide ks
        → (next_level sha3 hs ≡ next_level sha3 ks) ⊎ Collision
        → (hs ≡ ks) ⊎ Collision
    up hs ks n w v (inl e) = level_binding hs ks n w v e
    up hs ks n w v (inr c) = inr c

    -- If two lists of equally many 32-byte leaves have the same Merkle root, then they are equal
    -- or two different texts with one SHA3 hash are at hand. SHA3 is taken to give 32 bytes.
    pub compute_merkle-binding :
        (fuel : ℕ) (hs ks : List Hash) {r : Hash}
        → length hs ≡ length ks
        → All IsWide hs
        → All IsWide ks
        → compute_merkle sha3 fuel hs ≡ some r
        → compute_merkle sha3 fuel ks ≡ some r
        → (hs ≡ ks) ⊎ Collision
    unfolding compute_merkle
    compute_merkle-binding zero hs ks n w v e f = absurd (ground arith)
    compute_merkle-binding (suc fuel) [] [] n w v e f = inl refl
    compute_merkle-binding (suc fuel) (h ∷ []) (h' ∷ []) n w v e f = inl (ground arith)
    compute_merkle-binding (suc fuel) (h ∷ k ∷ hs) (h' ∷ k' ∷ ks) n w v e f =
        up (h ∷ k ∷ hs) (h' ∷ k' ∷ ks) n w v (
          compute_merkle-binding fuel (next_level sha3 (h ∷ k ∷ hs))
            (next_level sha3 (h' ∷ k' ∷ ks)) (length-next_level (h ∷ k ∷ hs) (h' ∷ k' ∷ ks) n)
            (next_level-IsWide (h ∷ k ∷ hs) w) (next_level-IsWide (h' ∷ k' ∷ ks) v) e f)
    compute_merkle-binding (suc fuel) hs ks n w v e f = absurd (omega arith)
