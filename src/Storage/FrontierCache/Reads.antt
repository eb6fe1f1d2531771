-- ===== src/Storage/FrontierCache/Reads.antt =====
-- GetCurrent, VerifyVersionVector and FindChangedPaths of FrontierCache.
use wavicle.Prelude.{
  ℕ, ◌<◌, Bytes, ◌≡◌, refl, sym, ap, ◌∙◌, true, false, ==_iff, ==_refl, nat_eq, bytes_eq, ◌↔◌,
  is_some, some, [], ◌∷◌, arith, Bool-cases, Option-cases, inl, inr, Dict, keys, lookup, All,
  delete-All, insert, delete, elem, insert-Distinct, Linked, move_to_front, All-elem,
}
use wavicle.Core.{Hash, Time}
use wavicle.Storage.FrontierCache.{
  FrontierCache, expired, unexpired, get_current, get_current_hash, changed, verify_version_vector,
  find_changed_paths,
}
use wavicle.Storage.FrontierCache.Recency.{
  Nodes, paths, address, elem-address, elem-paths-address, address-delete, paths-delete-Distinct,
  lookup-address,
}
use wavicle.Storage.FrontierCache.Drop.{IsValid, present_address}

elem-address_of :
    (p : Bytes) (e : ℕ) (f : FrontierCache)
    → IsValid f
    → address p f.lru_list.nodes ≡ some e
    → e < f.lru_list.fresh
elem-address_of p e f v at =
    All-elem (λ e. e < f.lru_list.fresh) e (keys f.lru_list.nodes) v.sound.bounded
      (elem-address p e f.lru_list.nodes at)

-- The cache with a path moved to the front of the list.
abbrev touched : ℕ → Bytes → FrontierCache → FrontierCache
touched e p f = record f { lru_list = record f.lru_list { nodes = insert e p f.lru_list.nodes } }

touched-IsValid :
    (e : ℕ) (p : Bytes) (f : FrontierCache)
    → IsValid f
    → address p f.lru_list.nodes ≡ some e
    → IsValid (touched e p f)
unfolding insert address
touched-IsValid e p f v at =
    let ns = f.lru_list.nodes in
    let gone = λ (q : Bytes). address-delete p q e ns v.sound.distinct v.unique at in
    let clear : elem p (paths (delete e ns)) ≡ false =
      elem-paths-address p (delete e ns) ∙ ap is_some (gone p) ∙ rw (==_refl p) refl in
    let same : (q : Bytes) → address q (insert e p ns) ≡ address q ns =
      λ q. ground (arith, gone q, ==_iff p q) in
    record {
      sound = record {
        distinct = insert-Distinct e p ns v.sound.distinct;
        bounded = (elem-address_of p e f v at, delete-All _ e ns v.sound.bounded);
      };
      unique = (clear, paths-delete-Distinct e ns v.unique);
      index = λ q. v.index q ∙ sym (same q);
      present = λ q. ap is_some (same q) ∙ v.present q;
      keyed = v.keyed;
      counted = v.counted;
    }

moved :
    (e : ℕ) (p : Bytes) (l : Linked Bytes)
    → lookup e l.nodes ≡ some p
    → move_to_front e l ≡ record l { nodes = insert e p l.nodes }
moved e p l h = rw (h, move_to_front) refl

-- For a valid cache, GetCurrent answers the entry of the path unless it has expired, leaves the
-- entries and the invariant as they are, and if it answers an atom the path is the front of the list.
pub get_current-IsValid :
    (p : Bytes) (now : Time) (f : FrontierCache)
    → IsValid f
    → let g = (get_current p now f).0 in
      let answer = (get_current p now f).1 in
      IsValid g
      × g.entries ≡ f.entries
      × answer ≡ unexpired now (lookup p f.entries)
      × (is_some answer ≡ true → (e : ℕ) × (ns : Nodes) × (g.lru_list.nodes ≡ (e, p) ∷ ns))
unfolding get_current unexpired
get_current-IsValid p now f v = elim (Option-cases (lookup p f.entries)) [
  | inl n ↦ rw (n, get_current, unexpired) (v, refl, refl, λ h. absurd (ground arith))
  | inr (a, stored) ↦ elim (Bool-cases (expired now a)) [
    | inl old ↦ rw (stored, old, get_current, unexpired) (v, refl, refl, λ h. absurd (ground arith))
    | inr live ↦
        let (e, at) = present_address f p v stored in
        let here = lookup-address p e f.lru_list.nodes v.sound.distinct at in
        rw (stored, live, v.index p ∙ at, get_current, unexpired)
          (rw (moved e p f.lru_list here) (
            touched-IsValid e p f v at,
            refl,
            refl,
            λ h. (e, delete e f.lru_list.nodes, unfold insert in refl),
          ))
  ]
]

changed-get_current_hash :
    (p : Bytes) (h : Hash) (now : Time) (f : FrontierCache)
    → (changed p h now f ≡ false) ↔ (get_current_hash p now f ≡ some h)
unfolding changed get_current_hash unexpired
changed-get_current_hash p h now f = elim (Option-cases (lookup p f.entries)) [
  | inl n ↦
      rw (n, changed, get_current_hash) (λ e. absurd (ground arith), λ e. absurd (ground arith))
  | inr (a, stored) ↦
      rw (stored, changed, get_current_hash)
        (λ e. ground (arith, ==_iff a.hash h), λ e. ground (arith, ==_iff a.hash h))
]

-- VerifyVersionVector answers true exactly when GetCurrentHash gives the expected hash for every
-- path of the vector, and exactly when FindChangedPaths finds nothing.
pub verify_version_vector_iff :
    (vector : Dict Bytes Hash) (now : Time) (f : FrontierCache)
    → ((verify_version_vector vector now f ≡ true)
        ↔ All (λ (entry : Bytes × Hash). get_current_hash entry.0 now f ≡ some entry.1) vector)
      × ((verify_version_vector vector now f ≡ true) ↔ (find_changed_paths vector now f ≡ []))
unfolding verify_version_vector find_changed_paths
verify_version_vector_iff [] now f = ((λ h. tt, λ h. refl), (λ h. refl, λ h. refl))
verify_version_vector_iff ((p, h) ∷ vector) now f =
    let (all, none_found) = verify_version_vector_iff vector now f in
    let one = changed-get_current_hash p h now f in
    elim (Bool-cases (changed p h now f)) [
      | inl m ↦ rw m (
        (λ t. absurd (ground arith), λ t. absurd (ground (arith, one.1 t.0))),
        (λ t. absurd (ground arith), λ t. absurd (ground arith)),
      )
      | inr n ↦ rw n ((λ t. (one.0 n, all.0 t), λ t. all.1 t.1), none_found)
    ]

-- GetCurrent keeps the limit and the clock.
pub get_current-kept :
    (p : Bytes) (now : Time) (f : FrontierCache)
    → ((get_current p now f).0.max_memory_bytes ≡ f.max_memory_bytes)
      × ((get_current p now f).0.clock ≡ f.clock)
unfolding get_current
get_current-kept p now f = elim (Option-cases (lookup p f.entries)) [
  | inl n ↦ rw (get_current, n) (refl, refl)
  | inr (a, h) ↦ elim (Bool-cases (expired now a)) [
    | inl old ↦ rw (get_current, h, old) (refl, refl)
    | inr live ↦ elim (Option-cases (lookup p f.lru_nodes)) [
      | inl n ↦ rw (get_current, h, live, n) (refl, refl)
      | inr (e, at) ↦ rw (get_current, h, live, at) (refl, refl)
    ]
  ]
]

-- GetCurrent keeps the count of bytes.
pub get_current-bytes :
    (p : Bytes) (now : Time) (f : FrontierCache)
    → (get_current p now f).0.current_bytes ≡ f.current_bytes
unfolding get_current
get_current-bytes p now f = elim (Option-cases (lookup p f.entries)) [
  | inl n ↦ rw (get_current, n) refl
  | inr (a, h) ↦ elim (Bool-cases (expired now a)) [
    | inl old ↦ rw (get_current, h, old) refl
    | inr live ↦ elim (Option-cases (lookup p f.lru_nodes)) [
      | inl n ↦ rw (get_current, h, live, n) refl
      | inr (e, at) ↦ rw (get_current, h, live, at) refl
    ]
  ]
]
