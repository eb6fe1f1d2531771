-- ===== src/Engine/Proof/Reduce.antt =====
-- Dirty marks, Merkle roots of nodes and reduceDirty: internal/engine/proof.go and incremental.go.
-- A recursion over the nodes runs on fuel for its depth.
use wavicle.Prelude.{
  ℕ, zero, suc, ◌++◌, Bytes, true, false, not, ◌&&◌, if◌then◌else◌, none, some, List, [], ◌∷◌, take,
  drop, ◌==◌, bytes_eq,
}
use wavicle.Core.{
  Hash, Value, Expr, const, field_access, embed, compose, apply, resonate, Fields, end, field, dict,
  Time, Platform, serialize_expr, big_endian, is_zero,
}
use wavicle.Storage.Store.{Store}
use wavicle.Engine.Combinators.{
  missing_children, unsupported, unfinished, extract_field, apply_combinator,
}
use wavicle.Engine.Proof.{
  ProofNode, Run, pure, raise, ◌>>=◌, ◌>>◌, load, save, count_hit, count_miss, for_each, read,
}

-- `record[k] = v`
unfoldable pub put_field : Bytes → Value → Fields → Fields
put_field k v end = field k v end
put_field k v (field j w fs) =
    let rest = put_field k v fs in if j == k then field k v fs else field j w rest

module _ {S : Type 0} where
  -- PropagateDirtyUp
  unfoldable pub propagate_dirty_up : ℕ → ℕ → Run S (Unit {0})
  unfolding load save
  propagate_dirty_up zero e = raise unfinished
  propagate_dirty_up (suc fuel) e = do
    n ← load e
    elim n.dirty [
      | true ↦ pure tt
      | false ↦ do
        save e (record n { dirty = true; merkle_valid = false })
        elim n.parent [ none ↦ pure tt | some p ↦ propagate_dirty_up fuel p ]
    ]

  -- ResetDirty
  unfoldable pub reset_dirty : ℕ → ℕ → Run S (Unit {0})
  unfolding load save for_each
  reset_dirty zero e = raise unfinished
  reset_dirty (suc fuel) e = do
    n ← load e
    save e (record n { dirty = false; merkle_valid = false })
    for_each (reset_dirty fuel) n.children

  -- the roots of the children, eight bytes of each
  unfoldable pub child_roots : (ℕ → Run S Hash) → List ℕ → Run S Bytes
  child_roots root [] = pure []
  child_roots root (c ∷ cs) = do r ← root c; rest ← child_roots root cs; pure (take 8 r ++ rest)

  -- ComputeMerkleRoot of a node; `xxhash` is xxHash64
  unfoldable pub node_merkle_root : Platform → (Bytes → ℕ) → ℕ → ℕ → Run S Hash
  unfolding load save child_roots
  node_merkle_root os xxhash zero e = raise unfinished
  node_merkle_root os xxhash (suc fuel) e = do
    n ← load e
    elim n.merkle_valid [
      | true ↦ pure n.merkle_root
      | false ↦ elim (is_zero n.source_hash) [
        | false ↦ do
          save e (record n { merkle_root = n.source_hash; merkle_valid = true })
          pure n.source_hash
        | true ↦ do
          roots ← child_roots (node_merkle_root os xxhash fuel) n.children
          let sum = big_endian 8 (xxhash (serialize_expr os n.expr ++ roots))
          let root = sum ++ drop 8 n.merkle_root
          save e (record n { merkle_root = root; merkle_valid = true })
          pure root
      ]
    ]

  -- `node.CachedValue = result; node.Dirty = false; node.MerkleValid = false`
  unfoldable pub finish : ℕ → Value → Run S Value
  unfolding load save
  finish e v = do
    n ← load e
    save e (record n { cached_value = some v; dirty = false; merkle_valid = false })
    pure v

  -- the children of a composition, into the record
  unfoldable pub reduce_children : (ℕ → Run S Value) → List ℕ → Fields → Run S Fields
  unfolding load
  reduce_children reduce [] fs = pure fs
  reduce_children reduce (c ∷ cs) fs = do
    v ← reduce c
    n ← load c
    reduce_children reduce cs (put_field n.source_path v fs)

  -- the value of a node's expression; `reduce` is the recursive call
  unfoldable pub reduce_expr : ℕ → (ℕ → Run S Value) → Expr → List ℕ → Run S Value
  unfolding reduce_children
  reduce_expr fuel reduce (const v) children = pure v
  reduce_expr fuel reduce (field_access f e) [] = raise missing_children
  reduce_expr fuel reduce (field_access f e) (c ∷ _) = do v ← reduce c; pure (extract_field f v)
  reduce_expr fuel reduce (compose hs) children = do
    fs ← reduce_children reduce children end
    pure (dict fs)
  reduce_expr fuel reduce (apply f a) [] = raise missing_children
  reduce_expr fuel reduce (apply f a) (_ ∷ []) = raise missing_children
  reduce_expr fuel reduce (apply f a) (c ∷ d ∷ _) = do
    f' ← reduce c
    a' ← reduce d
    (λ w. (apply_combinator fuel f' a', w))
  reduce_expr fuel reduce (embed m v) children = raise unsupported
  reduce_expr fuel reduce (resonate qs) children = raise unsupported

  module _ (st : Store S) (now : Time) where
    -- a dirty leaf takes the expression and the hash of its path's current atom
    unfoldable pub refresh : ℕ → ProofNode → Run S ProofNode
    unfolding read save
    refresh e n =
        if not (n.source_path == []) && n.dirty
        then (do
          current ← read st n.source_path now
          elim current [
            | none ↦ pure n
            | some a ↦ do
              let n' = record n { expr = a.expr; source_hash = a.hash }
              save e n'
              pure n'
          ])
        else pure n

    -- reduceDirty
    unfoldable pub reduce_dirty : ℕ → ℕ → Run S Value
    unfolding load count_hit count_miss refresh reduce_expr finish
    reduce_dirty zero e = raise unfinished
    reduce_dirty (suc fuel) e = do
      n ← load e
      elim (if n.dirty then none else n.cached_value) [
        | some v ↦ do count_hit; pure v
        | none ↦ do
          count_miss
          n' ← refresh e n
          v ← reduce_expr fuel (reduce_dirty fuel) n'.expr n'.children
          finish e v
      ]
