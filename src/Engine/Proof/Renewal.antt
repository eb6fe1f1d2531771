-- ===== src/Engine/Proof/Renewal.antt =====
-- ReduceIncremental on a proof of a path whose atom is a constant.
use wavicle.Prelude.{
  ℕ, suc, Bytes, Bool, true, false, ◌≡◌, refl, sym, ap, ◌∙◌, none, some, List, [], ◌∷◌, ok, delete,
  lookup, insert, bytes_eq, Bool-cases, inl, inr, ◌==◌, if◌then◌else◌, ==_refl, ==_iff, bytes_beq,
}
use wavicle.Core.{Hash, Value, const, Atom, Time, Platform, is_zero}
use wavicle.Storage.Store.{Store}
use wavicle.Engine.Proof.{ProofNode, Work, for_each, count_miss, load, save, read}
use wavicle.Engine.Proof.Incremental.{
  work_on, mark_changed, recompute, renewed, unchanged, conclude, after_root, reduce_incremental,
  update_vector,
}
use wavicle.Engine.Proof.Reduce.{
  reset_dirty, propagate_dirty_up, refresh, reduce_expr, finish, reduce_dirty, node_merkle_root,
}
use wavicle.Engine.Proof.Compose.{Proof}
use wavicle.Engine.Proof.Leaf.{Shows}

-- A proof with one node, for the path, made when the path had the hash h.
abbrev pub leaf_proof : Bytes → Hash → ProofNode → Proof → Proof
leaf_proof path h n proof = record proof {
  root_node = 0;
  nodes = record n { children = []; parent = none; source_path = path } ∷ [];
  path_to_node = (path, 0) ∷ [];
  version_vector = (path, h) ∷ [];
}

module _ {S : Type 0} (os : Platform) (xxhash : Bytes → ℕ) (st : Store S) (now : Time)
    (path : Bytes) (a : Atom) (P : S → Type 0) (sh : Shows st now path a P) where
  abbrev next : S → S
  next s = (st.get_current path now s).0

  abbrev marked : Bool → ProofNode → ProofNode
  marked dirty n = record n {
    children = [];
    parent = none;
    source_path = path;
    dirty = dirty;
    merkle_valid = false;
  }

  abbrev one_node : S → ℕ → ProofNode → Work S
  one_node s misses n = record {
    store = s;
    nodes = n ∷ [];
    index = (path, 0) ∷ [];
    hits = 0;
    misses = misses;
  }

  reset-Shows :
      (h : Hash) (node : ProofNode) (proof : Proof) (s : S) (fuel : ℕ)
      → reset_dirty (suc fuel) 0 (work_on os xxhash st now s (leaf_proof path h node proof))
        ≡ (ok tt, one_node s 0 (marked false node))
  unfolding reset_dirty for_each load save work_on
  reset-Shows h node proof s fuel = refl

  mark-Shows :
      (node : ProofNode) (s : S) (fuel : ℕ)
      → for_each
          (mark_changed ((path, 0) ∷ []) (suc fuel))
          (path ∷ [])
          (one_node s 0 (marked false node))
        ≡ (ok tt, one_node s 0 (marked true node))
  unfolding for_each mark_changed propagate_dirty_up load save lookup
  mark-Shows node s fuel = rw (mark_changed, ==_refl path) refl

  abbrev renewed_node : Value → ProofNode → ProofNode
  renewed_node v node = record (marked false node) {
    expr = a.expr;
    source_hash = a.hash;
    cached_value = some v;
  }

  module _ (v : Value) (e : a.expr ≡ const v) (n : (path == []) ≡ false) where
    reduce_marked-Shows :
        (node : ProofNode) (s : S) (fuel : ℕ)
        → P s
        → reduce_dirty st now (suc fuel) 0 (one_node s 0 (marked true node))
          ≡ (ok v, one_node (next s) 1 (renewed_node v node))
    unfolding reduce_dirty load count_miss refresh reduce_expr finish save read
    reduce_marked-Shows node s fuel p = rw (n, sh.current s p, e) refl

    recompute-Shows :
        (h : Hash) (node : ProofNode) (proof : Proof) (s : S) (fuel : ℕ)
        → P s
        → let q = leaf_proof path h node proof in
          recompute os xxhash st now (suc fuel) q (path ∷ []) (work_on os xxhash st now s q)
          ≡ (ok v, one_node (next s) 1 (renewed_node v node))
    unfolding recompute
    recompute-Shows h node proof s fuel p =
        rw
          (
            reset-Shows h node proof s fuel,
            mark-Shows node s fuel,
            reduce_marked-Shows node s fuel p,
          )
          refl

    vector-Shows :
        (h : Hash) (s : S)
        → P s
        → update_vector (λ (p : Bytes). st.get_current_hash p now s) (path ∷ []) ((path, h) ∷ [])
          ≡ (path, a.hash) ∷ []
    unfolding update_vector insert delete
    vector-Shows h s p = rw (sh.hash s p, ==_refl path) refl

    renewed_root-Shows :
        (node : ProofNode) (s : S) (fuel : ℕ)
        → is_zero a.hash ≡ false
        → (node_merkle_root os xxhash (suc fuel) 0 (one_node s 1 (renewed_node v node))).0
          ≡ ok a.hash
    unfolding node_merkle_root load save is_zero bytes_beq
    renewed_root-Shows node s fuel z = rw z refl

    stale-Shows :
        (h : Hash) (node : ProofNode) (proof : Proof) (s : S) (fuel : ℕ)
        → (a.hash == h) ≡ false
        → P s
        → reduce_incremental os xxhash st now (suc fuel) (leaf_proof path h node proof) s
          ≡ renewed os xxhash st now
              (suc fuel)
              (leaf_proof path h node proof)
              (path ∷ [])
              (one_node (next s) 1 (renewed_node v node))
              v
    unfolding reduce_incremental conclude
    stale-Shows h node proof s fuel m p =
        let q = leaf_proof path h node proof in
        let found : st.find_changed_paths ((path, h) ∷ []) now s ≡ path ∷ [] =
          rw (sh.find h s p, m) refl in
        let run = λ (c : List Bytes).
          conclude os xxhash st now (suc fuel) q c
            (recompute os xxhash st now (suc fuel) q c (work_on os xxhash st now s q)) in
        ap
          (λ b.
            if b
            then unchanged os xxhash st now q s
            else run (st.find_changed_paths ((path, h) ∷ []) now s))
          (sh.verify h s p ∙ m)
        ∙ ap run found
        ∙ ap (conclude os xxhash st now (suc fuel) q (path ∷ []))
            (recompute-Shows h node proof s fuel p)

    -- For a store that goes on to show under a path an atom of that path which is a constant, whose
    -- hash is not zero, ReduceIncremental, with any fuel, on a proof of the path with one node, answers the
    -- constant, provided that the proof has it as its value if its version vector has the hash of
    -- the atom. The version vector then has that hash, and the store goes on to show the atom.
    pub reduce_incremental-const :
        (h : Hash) (node : ProofNode) (proof : Proof) (s : S) (fuel : ℕ)
        → is_zero a.hash ≡ false
        → ((a.hash == h) ≡ true → proof.value ≡ v)
        → P s
        → let r = reduce_incremental os xxhash st now (suc fuel) (leaf_proof path h node proof) s in
          (r.result ≡ ok v)
          × (r.proof.value ≡ v)
          × (r.proof.version_vector ≡ (path, a.hash) ∷ [])
          × P r.store
    unfolding reduce_incremental unchanged renewed
    reduce_incremental-const h node proof s fuel z same p = elim (Bool-cases (a.hash == h)) [
      | inl m ↦ rw (sh.verify h s p ∙ m) (
        ap ok (same m),
        same m,
        ap (λ (k : Hash). (path, k) ∷ []) (sym ((==_iff a.hash h).0 m)),
        p,
      )
      | inr m ↦ rw (stale-Shows h node proof s fuel m p) (
        ap (λ o. after_root os xxhash st now o v) (renewed_root-Shows node (next s) fuel z),
        refl,
        vector-Shows h (next s) (sh.stays s p),
        sh.stays s p,
      )
    ]
