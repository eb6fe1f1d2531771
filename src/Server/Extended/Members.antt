-- ===== src/Server/Extended/Members.antt =====
-- The members that SADD and SREM count, store and reply.
use wavicle.Prelude.{
  Option, none, some, nat_eq, ◌==◌, ==_refl, ok, ℕ, suc, ◌+◌, Bytes, bytes_eq, ==_iff, ◌≡◌, refl,
  ap, ◌∙◌, arith, Bool, true, false, not, ◌&&◌, ◌||◌, elem, Dict, keys, lookup, insert, delete,
  is_some, Distinct, Option-cases, inl, inr, if◌then◌else◌, List, [], ◌∷◌, length, lookup-insert,
  lookup-delete, insert-Distinct, delete-Distinct, delete_absent, length-delete,
}
use wavicle.Core.{Value, null, int, dict, const, Time}
use wavicle.Storage.Store.{Store}
use wavicle.Server.State.{Server, set_key, set_key_type, del_key_type}
use wavicle.Server.Commands.{integer}
use wavicle.Server.Values.{
  given, of_entries, remove_members, put_atom, put_value, put_map, bury, require_type, read_as,
}
use wavicle.Server.Extended.Sets.{as_set, members, add_members, sadd_command, srem_command}

length-delete_found :
    (k : Bytes) (m : Dict Bytes Value)
    → Distinct (keys m)
    → is_some (lookup k m) ≡ true
    → suc (length (delete k m)) ≡ length m
length-delete_found k m d h = elim (Option-cases (lookup k m)) [
  | inl e ↦ absurd (ground (arith, h, e))
  | inr (v, e) ↦ omega (arith, length-delete k v m d e)
]

length-delete_missing :
    (k : Bytes) (m : Dict Bytes Value)
    → is_some (lookup k m) ≡ false
    → length (delete k m) ≡ length m
length-delete_missing k m h = elim (Option-cases (lookup k m)) [
  | inl e ↦ ap length (delete_absent k m e)
  | inr (v, e) ↦ absurd (ground (arith, h, e))
]

add_size :
    (m : Dict Bytes Value) (rest total n : ℕ) (known : Bool)
    → total ≡ suc rest + n
    → (known ≡ true → suc rest ≡ length m)
    → (known ≡ false → rest ≡ length m)
    → total ≡ length m + (if known then n else suc n)
add_size m rest total n true e found missing = omega (arith, e, found refl)
add_size m rest total n false e found missing = omega (arith, e, missing refl)

remove_size :
    (all rest left n : ℕ) (known : Bool)
    → rest ≡ left + n
    → (known ≡ true → suc rest ≡ all)
    → (known ≡ false → rest ≡ all)
    → all ≡ left + (if known then suc n else n)
remove_size all rest left n true e found missing = omega (arith, e, found refl)
remove_size all rest left n false e found missing = omega (arith, e, missing refl)

-- The loop of SADD on a set whose members are distinct.
add_members-length :
    (ks : List Bytes) (m : Dict Bytes Value)
    → Distinct (keys m)
    → let r = add_members ks m in
      Distinct (keys r.0)
      × (length r.0 ≡ length m + r.1)
      × ((j : Bytes) → is_some (lookup j r.0) ≡ (elem j ks || is_some (lookup j m)))
unfolding add_members elem
add_members-length [] m d = (d, omega arith, λ j. refl)
add_members-length (k ∷ ks) m d =
    let (d', size, has) =
      add_members-length ks (insert k (int 1) m) (insert-Distinct k (int 1) m d) in
    (
      d',
      add_size m (length (delete k m)) _ _ (is_some (lookup k m)) size (length-delete_found k m d)
          (length-delete_missing k m),
      λ j. has j ∙ grind (arith, lookup-insert k j (int 1) m, ==_iff k j),
    )

-- The loop of SREM on a set whose members are distinct.
remove_members-length :
    (ks : List Bytes) (m : Dict Bytes Value)
    → Distinct (keys m)
    → let r = remove_members ks m in
      Distinct (keys r.0)
      × (length m ≡ length r.0 + r.1)
      × ((j : Bytes) → is_some (lookup j r.0) ≡ (not (elem j ks) && is_some (lookup j m)))
unfolding remove_members elem
remove_members-length [] m d = (d, omega arith, λ j. refl)
remove_members-length (k ∷ ks) m d =
    let (d', size, has) = remove_members-length ks (delete k m) (delete-Distinct k m d) in
    (
      d',
      remove_size (length m) (length (delete k m)) _ _ (is_some (lookup k m)) size
          (length-delete_found k m d) (length-delete_missing k m),
      λ j. has j ∙ grind (arith, lookup-delete k j m, ==_iff k j),
    )

module _ {S : Type 0} (st : Store S) (now : Time) where
  -- If the key may hold a set and the set is read, or none, and its members are distinct: SADD replies the
  -- number by which the set that it appends is longer than the one before, and puts the type set into the
  -- index. The appended set has distinct members, and those are the ones before and those of the command.
  pub sadd_command-members :
      (key k : Bytes) (ks : List Bytes) (s s1 s2 : Server S) (found : Option (Dict Bytes Value))
      → require_type st now key set_key s ≡ (s1, ok tt)
      → read_as st now as_set key s1 ≡ (s2, ok found)
      → Distinct (keys (members found))
      → let r = sadd_command st now (key ∷ k ∷ ks) s in
        (m : Dict Bytes Value) × (n : ℕ) × (r.1 ≡ ok (integer n))
        × (length m ≡ length (members found) + n)
        × (r.0.store ≡ (st.append_atom (const (dict (of_entries m))) key [] 0 now s2.store).0)
        × (lookup key r.0.key_types ≡ some set_key)
        × Distinct (keys m)
        × ((j : Bytes)
            → is_some (lookup j m) ≡ (elem j (k ∷ ks) || is_some (lookup j (members found))))
  unfolding sadd_command put_value put_atom set_key_type
  sadd_command-members key k ks s s1 s2 found typed read d =
      let (d', size, has) = add_members-length (k ∷ ks) (members found) d in
      (
        (add_members (k ∷ ks) (members found)).0,
        (add_members (k ∷ ks) (members found)).1,
        rw (typed, read) refl,
        size,
        rw (typed, read) refl,
        rw (typed, read) (lookup-insert key key set_key s2.key_types ∙ rw (==_refl key) refl),
        d',
        has,
      )

  -- what is written back of a map
  put_map-appended :
      (key : Bytes) (left : Dict Bytes Value) (s : Server S)
      → let r = put_map st now key left s in
        (r.1 ≡ ok tt)
        × (r.0.store
            ≡ (st.append_atom
                (const (if length left == 0 then null else dict (of_entries left)))
                key
                []
                0
                now
                s.store).0)
        × (lookup key r.0.key_types ≡ (if length left == 0 then none else lookup key s.key_types))
  unfolding put_map bury put_value put_atom del_key_type
  put_map-appended key [] s =
      (refl, refl, lookup-delete key key s.key_types ∙ rw (==_refl key) refl)
  put_map-appended key (e ∷ m) s =
      let more : (suc (length m) == 0) ≡ false = ground arith in rw more (refl, refl, refl)

  -- If the key may hold a set and a set is read whose members are distinct: SREM replies the number by
  -- which the set that is left is shorter than the one before. What is left has distinct members, and
  -- those are the ones before less those of the command. It is appended, or, if nothing is left, a
  -- tombstone, and the key leaves the index then.
  pub srem_command-members :
      (key k : Bytes) (ks : List Bytes) (s s1 s2 : Server S) (m : Dict Bytes Value)
      → require_type st now key set_key s ≡ (s1, ok tt)
      → read_as st now as_set key s1 ≡ (s2, ok (some m))
      → Distinct (keys m)
      → let r = srem_command st now (key ∷ k ∷ ks) s in
        (left : Dict Bytes Value) × (n : ℕ) × (r.1 ≡ ok (integer n))
        × (length m ≡ length left + n)
        × (r.0.store
            ≡ (st.append_atom
                (const (if length left == 0 then null else dict (of_entries left)))
                key
                []
                0
                now
                s2.store).0)
        × (lookup key r.0.key_types ≡ (if length left == 0 then none else lookup key s2.key_types))
        × Distinct (keys left)
        × ((j : Bytes) → is_some (lookup j left) ≡ (not (elem j (k ∷ ks)) && is_some (lookup j m)))
  unfolding srem_command given
  srem_command-members key k ks s s1 s2 m typed read d =
      let (d', size, has) = remove_members-length (k ∷ ks) m d in
      let left = (remove_members (k ∷ ks) m).0 in
      let (done, store, index) = put_map-appended key left s2 in
      (
        left,
        (remove_members (k ∷ ks) m).1,
        rw (typed, read, done) refl,
        size,
        rw (typed, read, done) store,
        rw (typed, read, done) index,
        d',
        has,
      )
