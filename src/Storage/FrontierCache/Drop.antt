-- ===== src/Storage/FrontierCache/Drop.antt =====
-- The invariant of FrontierCache, and the two changes that its methods are made of: dropping a
-- path from the entries, the list and its index, and storing an atom under a path that is in none.
use wavicle.Prelude.{
  ℕ, ◌-◌, ◌<◌, Bytes, ◌≡◌, refl, ap, ◌∙◌, false, nat_eq, bytes_eq, is_some, none, some, arith,
  Bool-cases, Option-cases, inl, inr, Dict, keys, lookup, insert, delete, elem, Distinct,
  lookup-delete, insert-Distinct, delete-Distinct, delete-All, delete_absent, Linked, IsSound,
  remove, All-elem, All-weaken,
}
use wavicle.Core.{Hash, Atom}
use wavicle.Storage.FrontierCache.{
  FrontierCache, new_frontier_cache, estimate_atom_bytes, store_atom,
}
use wavicle.Storage.FrontierCache.Recency.{
  paths, address, elem-paths-address, address-delete, paths-delete-Distinct, total, total-delete,
}

-- The entries, the list and the index of its nodes have the same paths, each once, and the byte count is
-- the sum over the entries. The map from hashes to paths is left to IsIndexed of Hashes.
pub record IsValid (f : FrontierCache) : Type 0 where
  pub sound : IsSound f.lru_list
  pub unique : Distinct (paths f.lru_list.nodes)
  pub index : (p : Bytes) → lookup p f.lru_nodes ≡ address p f.lru_list.nodes
  pub present : (p : Bytes) → is_some (address p f.lru_list.nodes) ≡ is_some (lookup p f.entries)
  pub keyed : Distinct (keys f.entries)
  pub counted : f.current_bytes ≡ total f.entries

pub new_frontier_cache-IsValid : (limit : ℕ) → IsValid (new_frontier_cache limit)
unfolding new_frontier_cache lookup address total
new_frontier_cache-IsValid limit = record {
  sound = record { distinct = tt; bounded = tt };
  unique = tt;
  index = λ p. refl;
  present = λ p. refl;
  keyed = tt;
  counted = refl;
}

-- The cache without a path; the map from hashes may be any.
unfoldable pub dropped : ℕ → Bytes → Atom → Dict Hash Bytes → FrontierCache → FrontierCache
dropped e p a hashes f = record f {
  entries = delete p f.entries;
  hash_to_path = hashes;
  current_bytes = f.current_bytes - estimate_atom_bytes p a;
  lru_list = remove e f.lru_list;
  lru_nodes = delete p f.lru_nodes;
}

module _ (e : ℕ) (p : Bytes) (a : Atom) (hashes : Dict Hash Bytes) (f : FrontierCache) where
  pub dropped-IsValid :
      IsValid f
      → address p f.lru_list.nodes ≡ some e
      → lookup p f.entries ≡ some a
      → IsValid (dropped e p a hashes f)
  unfolding dropped
  dropped-IsValid v at stored =
      let ns = f.lru_list.nodes in
      let gone = λ (q : Bytes). address-delete p q e ns v.sound.distinct v.unique at in
      record {
        sound = record {
          distinct = delete-Distinct e ns v.sound.distinct;
          bounded = delete-All _ e ns v.sound.bounded;
        };
        unique = paths-delete-Distinct e ns v.unique;
        index = λ q. ground (arith, v.index q, lookup-delete p q f.lru_nodes, gone q);
        present = λ q. ground (arith, v.present q, lookup-delete p q f.entries, gone q);
        keyed = delete-Distinct p f.entries v.keyed;
        counted = omega (arith, v.counted, total-delete p a f.entries v.keyed stored);
      }

-- A stored path has an address.
pub present_address :
    (f : FrontierCache) (p : Bytes) {a : Atom}
    → IsValid f
    → lookup p f.entries ≡ some a
    → (e : ℕ) × (address p f.lru_list.nodes ≡ some e)
present_address f p v stored = elim (Option-cases (address p f.lru_list.nodes)) [
  | inl n ↦ absurd (ground (arith, n, v.present p, stored))
  | inr found ↦ found
]

fresh_element : (l : Linked Bytes) → IsSound l → elem l.fresh (keys l.nodes) ≡ false
fresh_element l h = elim (Bool-cases (elem l.fresh (keys l.nodes))) [
  | inl m ↦ absurd (omega (arith, All-elem (λ e. e < l.fresh) l.fresh (keys l.nodes) h.bounded m))
  | inr n ↦ n
]

pub store_atom-IsValid :
    (p : Bytes) (a : Atom) (f : FrontierCache)
    → IsValid f
    → lookup p f.entries ≡ none
    → IsValid (store_atom p a f)
unfolding store_atom insert total address
store_atom-IsValid p a f v absent =
    let ns = f.lru_list.nodes in
    let clear : elem p (paths ns) ≡ false =
      elem-paths-address p ns ∙ v.present p ∙ ap is_some absent in
    record {
      sound = record {
        distinct = (fresh_element f.lru_list v.sound, v.sound.distinct);
        bounded = (omega arith, All-weaken (λ e h. omega arith) (keys ns) v.sound.bounded);
      };
      unique = (clear, v.unique);
      index = λ q. (unfold lookup in ground (arith, v.index q, lookup-delete p q f.lru_nodes));
      present = λ q. (unfold lookup in ground (arith, v.present q, lookup-delete p q f.entries));
      keyed = insert-Distinct p a f.entries v.keyed;
      counted = rw (delete_absent p f.entries absent) (omega (arith, v.counted));
    }
