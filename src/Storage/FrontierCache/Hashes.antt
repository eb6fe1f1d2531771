-- ===== src/Storage/FrontierCache/Hashes.antt =====
-- hashToPath of FrontierCache, against its entries: what AppendAtom promises for all its indexes.
use wavicle.Prelude.{
  ℕ, zero, suc, ◌<◌, Bytes, ◌≡◌, refl, sym, ap, ◌∙◌, arith, ◌==◌, ==_iff, ==_refl, nat_eq, bytes_eq,
  Option, none, some, Bool-cases, Option-cases, inl, inr, Dict, lookup, insert, delete, length,
  lookup-insert, lookup-delete, delete_absent, back, ltb, leb, ◌&&◌, if_cases,
}
use wavicle.Core.{Hash, Expr, Atom, Time, Platform}
use wavicle.Storage.FrontierCache.{
  FrontierCache, new_frontier_cache, forget_old, store_atom, evict_back, evict_loop,
  enforce_ceiling, new_atom, append_atom,
}
use wavicle.Storage.FrontierCache.Drop.{IsValid, dropped, present_address}
use wavicle.Storage.FrontierCache.Ceiling.{
  last_entry, evict_back-dropped, evict_back-IsValid, store_atom-forget_old, forget_old_absent,
  forget_old-dropped, deleted,
}
use wavicle.Storage.FrontierCache.Append.{IsUnder, placed, append_atom-IsValid}

-- The hash of every entry leads to its path, and a hash leads to a path only if the entry there has it.
pub record IsIndexed (entries : Dict Bytes Atom) (hashes : Dict Hash Bytes) : Type 0 where
  pub found : (p : Bytes) (a : Atom) → lookup p entries ≡ some a → lookup a.hash hashes ≡ some p
  pub known :
      (h : Hash) (p : Bytes)
      → lookup h hashes ≡ some p
      → (a : Atom) × (lookup p entries ≡ some a) × (a.hash ≡ h)

module _ (p : Bytes) (a : Atom) (m : Dict Bytes Atom) (t : Dict Hash Bytes)
    (v : IsIndexed m t) where
  delete-IsIndexed : lookup p m ≡ some a → IsIndexed (delete p m) (delete a.hash t)
  delete-IsIndexed stored = record {
    found = λ q b e. elim (Bool-cases (p == q)) [
      | inl y ↦ absurd (ground (arith, e, y, lookup-delete p q m))
      | inr n ↦
          let there : lookup q m ≡ some b = sym (lookup-delete p q m ∙ rw n refl) ∙ e in
          elim (Bool-cases (a.hash == b.hash)) [
            | inl y ↦
                let same : a.hash ≡ b.hash = (==_iff a.hash b.hash).0 y in
                absurd (
                  ground (
                    arith,
                    n,
                    ==_iff p q,
                    v.found q b there,
                    v.found p a stored,
                    ap (λ h. lookup h t) same,
                  ))
            | inr k ↦ lookup-delete a.hash b.hash t ∙ rw k (v.found q b there)
          ]
    ];
    known = λ h q e. elim (Bool-cases (a.hash == h)) [
      | inl y ↦ absurd (ground (arith, e, y, lookup-delete a.hash h t))
      | inr n ↦
          let there : lookup h t ≡ some q = sym (lookup-delete a.hash h t ∙ rw n refl) ∙ e in
          let (b, at, same) = v.known h q there in
          elim (Bool-cases (p == q)) [
            | inl y ↦
                let here : lookup p m ≡ some b = ap (λ r. lookup r m) ((==_iff p q).0 y) ∙ at in
                let one : a ≡ b = ground (arith, stored, here) in
                absurd (ground (arith, n, ==_iff a.hash h, ap (λ (c : Atom). c.hash) one, same))
            | inr k ↦ (b, lookup-delete p q m ∙ rw k at, same)
          ]
    ];
  }

  insert-IsIndexed :
      lookup p m ≡ none → lookup a.hash t ≡ none → IsIndexed (insert p a m) (insert a.hash p t)
  insert-IsIndexed absent free = record {
    found = λ q b e. elim (Bool-cases (p == q)) [
      | inl y ↦
          let one : a ≡ b = ground (arith, e, y, lookup-insert p q a m) in
          rw (← one)
            (lookup-insert a.hash a.hash p t ∙ rw (==_refl a.hash) (ap some ((==_iff p q).0 y)))
      | inr n ↦
          let there : lookup q m ≡ some b = sym (lookup-insert p q a m ∙ rw n refl) ∙ e in
          elim (Bool-cases (a.hash == b.hash)) [
            | inl y ↦
                let same : a.hash ≡ b.hash = (==_iff a.hash b.hash).0 y in
                absurd (ground (arith, free, v.found q b there, ap (λ h. lookup h t) same))
            | inr k ↦ lookup-insert a.hash b.hash p t ∙ rw k (v.found q b there)
          ]
    ];
    known = λ h q e. elim (Bool-cases (a.hash == h)) [
      | inl y ↦
          let one : p ≡ q = ground (arith, e, y, lookup-insert a.hash h p t) in
          (a, rw (← one) (lookup-insert p p a m ∙ rw (==_refl p) refl), (==_iff a.hash h).0 y)
      | inr n ↦
          let there : lookup h t ≡ some q = sym (lookup-insert a.hash h p t ∙ rw n refl) ∙ e in
          let (b, at, same) = v.known h q there in
          elim (Bool-cases (p == q)) [
            | inl y ↦ absurd (ground (arith, absent, at, ap (λ r. lookup r m) ((==_iff p q).0 y)))
            | inr k ↦ (b, lookup-insert p q a m ∙ rw k at, same)
          ]
    ];
  }

abbrev pub Indexed : FrontierCache → Type 0
Indexed f = IsIndexed f.entries f.hash_to_path

pub new_frontier_cache-Indexed : (limit : ℕ) → Indexed (new_frontier_cache limit)
unfolding new_frontier_cache lookup
new_frontier_cache-Indexed limit = record {
  found = λ p a e. absurd (ground (arith, e));
  known = λ h p e. absurd (ground (arith, e));
}

evict_back-Indexed :
    (e : ℕ) (p : Bytes) (f : FrontierCache)
    → IsValid f
    → Indexed f
    → back f.lru_list.nodes ≡ some (e, p)
    → Indexed (evict_back e p f)
unfolding dropped
evict_back-Indexed e p f v w h =
    let (at, a, stored) = last_entry f e p v h in
    rw (evict_back-dropped e p a f stored) (delete-IsIndexed p a f.entries f.hash_to_path w stored)

evict_loop-Indexed :
    (fuel target : ℕ) (f : FrontierCache)
    → IsValid f
    → Indexed f
    → Indexed (evict_loop fuel target f)
unfolding evict_loop
evict_loop-Indexed zero target f v w = w
evict_loop-Indexed (suc fuel) target f v w = elim (Bool-cases (ltb target f.current_bytes)) [
  | inr n ↦ rw (n, evict_loop) w
  | inl m ↦ elim (Option-cases (back f.lru_list.nodes)) [
    | inl n ↦ rw (m, n, evict_loop) w
    | inr ((e, p), h) ↦
        rw (m, h, evict_loop)
          (evict_loop-Indexed fuel target (evict_back e p f) (evict_back-IsValid e p f v h)
            (evict_back-Indexed e p f v w h))
  ]
]

store_atom-Indexed :
    (p : Bytes) (a : Atom) (k : ℕ) (f : FrontierCache)
    → IsValid f
    → Indexed f
    → lookup a.hash f.hash_to_path ≡ none
    → Indexed (store_atom p a (record (forget_old p f) { clock = k }))
unfolding store_atom dropped insert
store_atom-Indexed p a k f v w free = elim (Option-cases (lookup p f.entries)) [
  | inl n ↦ rw (forget_old_absent p f n) (insert-IsIndexed p a f.entries f.hash_to_path w n free)
  | inr (old, stored) ↦
      let (e, at) = present_address f p v stored in
      let t = delete old.hash f.hash_to_path in
      let gone : lookup a.hash t ≡ none =
        lookup-delete old.hash a.hash f.hash_to_path
        ∙ if_cases (λ (x : Option Bytes). x ≡ none) (old.hash == a.hash) _ _ refl free in
      let again = delete_absent p (delete p f.entries) (deleted p f) in
      rw (forget_old-dropped e p old f stored (v.index p ∙ at), ← again)
        (insert-IsIndexed p a (delete p f.entries) t
          (delete-IsIndexed p old f.entries f.hash_to_path w stored) (deleted p f) gone)
]

module _ (os : Platform) where
  enforce_ceiling-Indexed :
      (f : FrontierCache) → IsValid f → Indexed f → Indexed (enforce_ceiling os f)
  unfolding enforce_ceiling
  enforce_ceiling-Indexed f v w =
      if_cases Indexed
        (ltb 0 f.max_memory_bytes && leb (os.ninety_percent f.max_memory_bytes) f.current_bytes) _ _
        (evict_loop-Indexed (length f.lru_list.nodes) (os.eighty_percent f.max_memory_bytes) f v w)
        w

  -- For a valid cache with a memory limit, in which the hash of every entry leads to its path and every
  -- hash that leads to a path is that of the entry there: if the hash of the new atom leads nowhere yet,
  -- AppendAtom gives such a cache again. The paths of the entries are those of the list and of its index,
  -- each once, the byte count is the sum over the entries, and it is under 90% of the limit or at most
  -- 80% of it; the clock is one further.
  pub append_atom-Indexed :
      (expr : Expr) (path : Bytes) (expires_at now : Time) (f : FrontierCache)
      → IsValid f
      → IsIndexed f.entries f.hash_to_path
      → 0 < f.max_memory_bytes
      → lookup (new_atom os expr path expires_at now (suc f.clock)).hash f.hash_to_path ≡ none
      → let g = (append_atom os expr path expires_at now f).0 in
        IsValid g × IsIndexed g.entries g.hash_to_path × IsUnder os g × g.clock ≡ suc f.clock
  unfolding append_atom
  append_atom-Indexed expr path expires_at now f v w limited free =
      let a = new_atom os expr path expires_at now (suc f.clock) in
      let (valid, under, tick) = append_atom-IsValid os expr path expires_at now f v limited in
      let indexed =
        enforce_ceiling-Indexed (placed os expr path expires_at now f)
          (store_atom-forget_old path a (suc f.clock) f v)
          (store_atom-Indexed path a (suc f.clock) f v w free) in
      (valid, indexed, under, tick)
