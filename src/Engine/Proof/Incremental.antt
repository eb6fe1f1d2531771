-- ===== src/Engine/Proof/Incremental.antt =====
-- ReduceIncremental of internal/engine/incremental.go, on a store that is not a WriteThroughStore. It
-- reads the clock once. A nil root does not occur: see `Proof`.
use wavicle.Prelude.{
  ℕ, suc, Bytes, if◌then◌else◌, Option, none, some, List, [], ◌∷◌, Outcome, ok, err, Dict, insert,
  lookup, length, bytes_eq,
}
use wavicle.Core.{Hash, Value, Time, Platform}
use wavicle.Storage.Store.{Store}
use wavicle.Engine.Combinators.{EngineError}
use wavicle.Engine.Proof.{Work, Run, pure, ◌>>◌, for_each}
use wavicle.Engine.Proof.Reduce.{propagate_dirty_up, reset_dirty, node_merkle_root, reduce_dirty}
use wavicle.Engine.Proof.Compose.{Proof}

-- `proof.VersionVector.Entries[path] = h` for the changed paths that are live
unfoldable pub update_vector :
    (Bytes → Option Hash) → List Bytes → Dict Bytes Hash → Dict Bytes Hash
update_vector current [] v = v
update_vector current (p ∷ ps) v =
    update_vector current ps (elim (current p) [ none ↦ v | some h ↦ insert p h v ])

-- `node.PropagateDirtyUp()` of a changed path
unfoldable pub mark_changed : {S : Type 0} → Dict Bytes ℕ → ℕ → Bytes → Run S (Unit {0})
unfolding propagate_dirty_up
mark_changed index fuel path = elim (lookup path index) [
  | none ↦ pure tt
  | some e ↦ propagate_dirty_up fuel e
]

-- What ReduceIncremental leaves: the store, the proof, the counters and the result.
pub record Reduction (S : Type 0) : Type 0 where
  pub store : S
  pub proof : Proof
  pub changed_paths : ℕ
  pub hits : ℕ
  pub misses : ℕ
  pub result : Outcome EngineError Value

module _ {S : Type 0} (os : Platform) (xxhash : Bytes → ℕ) (st : Store S) (now : Time) where
  -- the work on a proof's nodes, from fresh counters
  unfoldable pub work_on : S → Proof → Work S
  work_on s p = record { store = s; nodes = p.nodes; index = p.path_to_node; hits = 0; misses = 0 }

  -- dirty marks and the reduction
  unfoldable pub recompute : ℕ → Proof → List Bytes → Run S Value
  unfolding for_each reset_dirty mark_changed reduce_dirty
  recompute fuel p changed = do
    reset_dirty fuel p.root_node
    for_each (mark_changed p.path_to_node fuel) changed
    reduce_dirty st now fuel p.root_node

  -- the fast path: the version vector still holds
  unfoldable pub unchanged : Proof → S → Reduction S
  unchanged p s = record {
    store = s;
    proof = record p { access_count = suc p.access_count; last_verified_at = now };
    changed_paths = 0;
    hits = 0;
    misses = 0;
    result = ok p.value;
  }

  -- an error of the reduction; what it did to the nodes stays
  unfoldable pub abandoned : Proof → List Bytes → Work S → EngineError → Reduction S
  abandoned p changed w e = record {
    store = w.store;
    proof = record p { nodes = w.nodes };
    changed_paths = length changed;
    hits = w.hits;
    misses = w.misses;
    result = err e;
  }

  abbrev pub after_root : Outcome EngineError Hash → Value → Outcome EngineError Value
  after_root (err e) v = err e
  after_root (ok _) v = ok v

  -- the new value, version vector and Merkle root of the root node
  unfoldable pub renewed : ℕ → Proof → List Bytes → Work S → Value → Reduction S
  unfolding update_vector node_merkle_root
  renewed fuel p changed w v =
      let m = node_merkle_root os xxhash fuel p.root_node w in
      let current = λ (path : Bytes). st.get_current_hash path now w.store in
      record {
        store = w.store;
        proof = record p {
          value = v;
          version_vector = update_vector current changed p.version_vector;
          nodes = m.1.nodes;
          access_count = suc p.access_count;
          last_verified_at = now;
        };
        changed_paths = length changed;
        hits = w.hits;
        misses = w.misses;
        result = after_root m.0 v;
      }

  -- the end of the slow path
  unfoldable pub conclude :
      ℕ → Proof → List Bytes → Outcome EngineError Value × Work S → Reduction S
  unfolding abandoned renewed
  conclude fuel p changed (err e, w) = abandoned p changed w e
  conclude fuel p changed (ok v, w) = renewed fuel p changed w v

  -- ReduceIncremental
  unfoldable pub reduce_incremental : ℕ → Proof → S → Reduction S
  unfolding work_on recompute unchanged conclude
  reduce_incremental fuel p s =
      let changed = st.find_changed_paths p.version_vector now s in
      if st.verify_version_vector p.version_vector now s
      then unchanged p s
      else conclude fuel p changed (recompute fuel p changed (work_on s p))
