-- ===== src/Engine/Proof/Compose.antt =====
-- ComposeProof of internal/engine/compose.go and the Merkle root of a version vector.
-- The store is a FrontierCache or a crystal, not a WriteThroughStore. A query takes one reading of the
-- clock. A nil pointer that the source follows ends the run with `panic`.
use wavicle.Prelude.{
  ℕ, zero, suc, ◌++◌, Bytes, false, ◌||◌, if◌then◌else◌, Option, none, some, List, [], ◌∷◌, Outcome,
  ok, err, Dict, insert, lookup, length, is_some, ◌==◌, bytes_eq,
}
use wavicle.Core.{Hash, zero_hash, Value, Expr, compose, Atom, Time, Platform, serialize, is_zero}
use wavicle.Fidelity.{ObservationMode}
use wavicle.Storage.Store.{Store}
use wavicle.Storage.Merkle.{compute_merkle}
use wavicle.Core.{str_less}
use wavicle.Engine.Combinators.{EngineError, path_not_found, panic, unfinished}
use wavicle.Engine.Proof.{ProofNode, Run, pure, raise, ◌>>=◌, ◌>>◌, load, save, read}
use wavicle.Engine.Proof.Reduce.{node_merkle_root, reduce_dirty}

-- MaterializedProof. Its root is never nil: ComposeProof follows that pointer before it returns.
pub record Proof : Type 0 where
  pub query_path : Bytes
  pub mode : ObservationMode
  pub value : Value
  pub value_hash : Hash
  pub version_vector : Dict Bytes Hash
  pub merkle_root : Hash
  pub path_to_node : Dict Bytes ℕ
  pub proof_tree : Expr
  pub root_node : ℕ
  pub nodes : List ProofNode
  pub access_count : ℕ
  pub last_verified_at : Time

abbrev new_node : Atom → Bytes → Option ℕ → ProofNode
new_node a path parent = record {
  expr = a.expr;
  children = [];
  parent = parent;
  cached_value = none;
  dirty = false;
  merkle_root = zero_hash;
  merkle_valid = false;
  source_hash = a.hash;
  source_path = path;
}

-- one entry into its place among the sorted paths
unfoldable pub put_path : Bytes → Hash → Dict Bytes Hash → Dict Bytes Hash
put_path p h [] = (p, h) ∷ []
put_path p h ((q, k) ∷ v) =
    let rest = put_path p h v in if str_less q p then (q, k) ∷ rest else (p, h) ∷ (q, k) ∷ v

-- sort.Strings(paths), with the hash of each path
unfoldable pub sort_paths : Dict Bytes Hash → Dict Bytes Hash
unfolding put_path
sort_paths [] = []
sort_paths ((p, h) ∷ v) = put_path p h (sort_paths v)

module _ {S : Type 0} (os : Platform) (xxhash : Bytes → ℕ) (st : Store S) (now : Time) where
  -- `node := &ProofNode{...}; pathIndex[path] = node`
  unfoldable pub allocate : Bytes → Option ℕ → Atom → Run S ℕ
  allocate path parent a w =
      let e = length w.nodes in
      (
        ok e,
        record w { nodes = w.nodes ++ new_node a path parent ∷ []; index = insert path e w.index },
      )

  -- the loop over the atoms of a composition
  unfoldable pub build_children : (Bytes → Run S (Option ℕ)) → List Hash → Run S (List ℕ)
  build_children build [] w = pure [] w
  build_children build (h ∷ hs) w = elim (st.get_atom h now w.store) [
    | none ↦ build_children build hs w
    | some a ↦
        (do
          child ← build a.path
          rest ← build_children build hs
          pure (elim child [ none ↦ rest | some c ↦ c ∷ rest ]))
          w
  ]

  -- buildProofNode
  unfoldable pub build_proof_node : ℕ → Option ℕ → Bytes → Run S (Option ℕ)
  unfolding read allocate build_children load save
  build_proof_node zero parent path = raise unfinished
  build_proof_node (suc fuel) parent path = do
    current ← read st path now
    elim current [
      | none ↦ pure none
      | some a ↦ do
        e ← allocate path parent a
        elim a.expr [
          | compose hs ↦ do
            cs ← build_children (build_proof_node fuel (some e)) hs
            n ← load e
            save e (record n { children = cs })
            pure (some e)
          | _ ↦ pure (some e)
        ]
    ]

  -- gatherCausalClosure
  unfoldable pub gather_causal_closure : Bytes → Run S Atom
  unfolding read
  gather_causal_closure path = do
    current ← read st path now
    elim current [ none ↦ raise (path_not_found path) | some a ↦ pure a ]

  -- captureVersionVector, on the one atom that was gathered
  unfoldable pub capture_version_vector : Atom → Run S (Dict Bytes Hash)
  unfolding read
  capture_version_vector a = if a.path == [] then pure [] else (do
    current ← read st a.path now
    pure ((a.path, elim current [ none ↦ a.hash | some c ↦ c.hash ]) ∷ []))

  -- the paths of the nodes that the version vector lacks
  unfoldable pub add_paths : Dict Bytes ℕ → Dict Bytes Hash → Run S (Dict Bytes Hash)
  unfolding load
  add_paths [] v = pure v
  add_paths ((_, e) ∷ index) v = do
    n ← load e
    if n.source_path == [] || is_some (lookup n.source_path v) then add_paths index v else (λ w.
        add_paths index
          (elim (st.get_current_hash n.source_path now w.store) [
            | none ↦ v
            | some h ↦ insert n.source_path h v
          ])
          w)

  -- the loop of ComputeVersionMerkleRoot over the sorted paths
  unfoldable pub version_hashes : Dict Bytes Hash → Run S (List Hash)
  unfolding read
  version_hashes [] = pure []
  version_hashes ((p, h) ∷ v) =
      if is_zero h
      then (do
        current ← read st p now
        rest ← version_hashes v
        pure (elim current [ none ↦ h | some c ↦ c.hash ] ∷ rest))
      else (do rest ← version_hashes v; pure (h ∷ rest))

  unfoldable pub finished : Option Hash → Run S Hash
  finished none = raise unfinished
  finished (some h) = pure h

  -- ComputeVersionMerkleRoot
  unfoldable pub version_merkle_root : Dict Bytes Hash → Run S Hash
  unfolding version_hashes finished sort_paths
  version_merkle_root v = do
    hs ← version_hashes (sort_paths v)
    finished (compute_merkle os.sha3 (suc (length hs)) hs)

  -- An error of reduceDirty leaves a nil value, whose hash cannot be taken.
  unfoldable pub or_panic : Outcome EngineError Value → Outcome EngineError Value
  or_panic (ok v) = ok v
  or_panic (err unfinished) = err unfinished
  or_panic (err _) = err panic

  unfoldable pub reduced : ℕ → Option ℕ → Run S (ℕ × Value)
  unfolding or_panic
  reduced fuel none = raise panic
  reduced fuel (some e) = do
    v ← (λ w. let r = reduce_dirty st now fuel e w in (or_panic r.0, r.1))
    pure (e, v)

  -- ComposeProof; the work starts with no nodes
  unfoldable pub compose_proof : ℕ → Bytes → ObservationMode → Run S Proof
  unfolding gather_causal_closure build_proof_node capture_version_vector add_paths
      version_merkle_root reduced reduce_dirty node_merkle_root
  compose_proof fuel path mode = do
    a ← gather_causal_closure path
    root ← build_proof_node fuel none path
    v ← capture_version_vector a
    v' ← (λ w. add_paths w.index v w)
    merkle ← version_merkle_root v'
    (e, value) ← reduced fuel root
    node_merkle_root os xxhash fuel e
    (λ w. (
      ok (record {
        query_path = path;
        mode = mode;
        value = value;
        value_hash = os.sha3 (serialize os value);
        version_vector = v';
        merkle_root = merkle;
        path_to_node = w.index;
        proof_tree = compose (a.hash ∷ []);
        root_node = e;
        nodes = w.nodes;
        access_count = 0;
        last_verified_at = 0;
      }),
      w,
    ))
