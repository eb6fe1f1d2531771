-- ===== src/Engine/Proof/Leaf.antt =====
-- Proofs of a path whose atom is a constant.
use wavicle.Prelude.{
  ℕ, suc, Bytes, Bool, true, false, ◌≡◌, refl, none, some, [], ◌∷◌, ok, delete, lookup, insert,
  bytes_eq, ◌==◌, if◌then◌else◌, ==_refl, bytes_beq,
}
use wavicle.Core.{Hash, zero_hash, Value, const, Atom, Time, Platform, is_zero}
use wavicle.Fidelity.{ObservationMode}
use wavicle.Storage.Store.{Store}
use wavicle.Storage.Merkle.{compute_merkle}
use wavicle.Engine.Proof.{no_work, ProofNode, Work, count_miss, load, save, read}
use wavicle.Engine.Proof.Reduce.{refresh, reduce_expr, finish, reduce_dirty, node_merkle_root}
use wavicle.Engine.Proof.Compose.{
  Proof, build_proof_node, gather_causal_closure, capture_version_vector, add_paths,
  version_merkle_root, compose_proof, reduced, or_panic, allocate, sort_paths, version_hashes,
  finished,
}

-- A store that shows the atom `a` under a path, and goes on to when it is read.
pub record Shows {S : Type 0} (st : Store S) (now : Time) (path : Bytes) (a : Atom) (P : S → Type 0)
    : Type 0 where
  pub current : (s : S) → P s → (st.get_current path now s).1 ≡ some a
  pub stays : (s : S) → P s → P (st.get_current path now s).0
  pub hash : (s : S) → P s → st.get_current_hash path now s ≡ some a.hash
  pub verify :
      (h : Hash) (s : S) → P s → st.verify_version_vector ((path, h) ∷ []) now s ≡ (a.hash == h)
  pub find :
      (h : Hash) (s : S)
      → P s
      → st.find_changed_paths ((path, h) ∷ []) now s ≡ (if a.hash == h then [] else path ∷ [])

module _ {S : Type 0} (os : Platform) (xxhash : Bytes → ℕ) (st : Store S) (now : Time)
    (path : Bytes) (a : Atom) (P : S → Type 0) (sh : Shows st now path a P) where
  abbrev next : S → S
  next s = (st.get_current path now s).0

  abbrev pub leaf : Hash → Bool → ProofNode
  leaf root valid = record {
    expr = a.expr;
    children = [];
    parent = none;
    cached_value = none;
    dirty = false;
    merkle_root = root;
    merkle_valid = valid;
    source_hash = a.hash;
    source_path = path;
  }

  abbrev leaf_work : S → Work S
  leaf_work s = record {
    store = s;
    nodes = leaf zero_hash false ∷ [];
    index = (path, 0) ∷ [];
    hits = 0;
    misses = 0;
  }

  gather-Shows :
      (w : Work S)
      → P w.store
      → gather_causal_closure os xxhash st now path w ≡ (ok a, record w { store = next w.store })
  unfolding gather_causal_closure read
  gather-Shows w p = rw (sh.current w.store p) refl

  build-Shows :
      (v : Value) (s : S) (fuel : ℕ)
      → a.expr ≡ const v
      → P s
      → build_proof_node os xxhash st now (suc fuel) none path (no_work s)
        ≡ (ok (some 0), leaf_work (next s))
  unfolding build_proof_node read allocate insert delete
  build-Shows v s fuel e p = rw (sh.current s p, e) refl

  capture-Shows :
      (w : Work S)
      → a.path ≡ path
      → (path == []) ≡ false
      → P w.store
      → capture_version_vector os xxhash st now a w
        ≡ (ok ((path, a.hash) ∷ []), record w { store = next w.store })
  unfolding capture_version_vector read
  capture-Shows w e n p = rw (e, n, sh.current w.store p) refl

  add_paths-Shows :
      (s : S)
      → (path == []) ≡ false
      → add_paths os xxhash st now ((path, 0) ∷ []) ((path, a.hash) ∷ []) (leaf_work s)
        ≡ (ok ((path, a.hash) ∷ []), leaf_work s)
  unfolding add_paths load lookup
  add_paths-Shows s n = rw (n, ==_refl path) refl

  merkle-Shows :
      (w : Work S)
      → is_zero a.hash ≡ false
      → (h : Hash) × (version_merkle_root os xxhash st now ((path, a.hash) ∷ []) w ≡ (ok h, w))
  unfolding version_merkle_root version_hashes sort_paths compute_merkle finished
  merkle-Shows w z = rw z (_, refl)

  reduce-Shows :
      (v : Value) (s : S) (fuel : ℕ)
      → a.expr ≡ const v
      → (path == []) ≡ false
      → reduce_dirty st now (suc fuel) 0 (leaf_work s) ≡ (
        ok v,
        record (leaf_work s) {
          misses = 1;
          nodes = record (leaf zero_hash false) { cached_value = some v } ∷ [];
        },
      )
  unfolding reduce_dirty load count_miss refresh reduce_expr finish save
  reduce-Shows v s fuel e n = rw (e, n) refl

  -- the leaf with its value
  abbrev pub reduced_node : Value → Hash → Bool → ProofNode
  reduced_node v root valid = record (leaf root valid) { cached_value = some v }

  abbrev reduced_work : S → ProofNode → Work S
  reduced_work s n = record {
    store = s;
    nodes = n ∷ [];
    index = (path, 0) ∷ [];
    hits = 0;
    misses = 1;
  }

  root-Shows :
      (v : Value) (s : S) (fuel : ℕ)
      → is_zero a.hash ≡ false
      → node_merkle_root os xxhash (suc fuel) 0 (reduced_work s (reduced_node v zero_hash false))
        ≡ (ok a.hash, reduced_work s (reduced_node v a.hash true))
  unfolding node_merkle_root load save is_zero bytes_beq
  root-Shows v s fuel z = rw z refl

  -- For a store that goes on to show under a path an atom of that path which is a constant, whose
  -- hash is not zero, ComposeProof of the path, with any fuel, gives a proof with the constant as
  -- its value, the path with the hash of the atom as its version vector and one node, at its root;
  -- the store goes on to show the atom.
  pub compose_proof-const :
      (v : Value) (s : S) (fuel : ℕ) (mode : ObservationMode)
      → a.expr ≡ const v
      → a.path ≡ path
      → (path == []) ≡ false
      → is_zero a.hash ≡ false
      → P s
      → let r = compose_proof os xxhash st now (suc fuel) path mode (no_work s) in
        (proof : Proof) × (r.0 ≡ ok proof)
        × (proof.value ≡ v)
        × (proof.version_vector ≡ (path, a.hash) ∷ [])
        × (proof.root_node ≡ 0)
        × (proof.nodes ≡ reduced_node v a.hash true ∷ [])
        × P r.1.store
  unfolding compose_proof reduced or_panic
  compose_proof-const v s fuel mode e pe n z p =
      let p1 = sh.stays s p in
      let p2 = sh.stays (next s) p1 in
      let p3 = sh.stays (next (next s)) p2 in
      let w = leaf_work (next (next (next s))) in
      let (h, me) = merkle-Shows w z in
      rw
        (
          gather-Shows (no_work s) p,
          build-Shows v (next s) fuel e p1,
          capture-Shows (leaf_work (next (next s))) pe n p2,
          add_paths-Shows (next (next (next s))) n,
          me,
          reduce-Shows v (next (next (next s))) fuel e n,
          root-Shows v (next (next (next s))) fuel z,
        )
        (_, refl, refl, refl, refl, refl, p3)
