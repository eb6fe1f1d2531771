-- ===== src/Engine/Proof/Fresh.antt =====
-- Proofs over a FrontierCache: what is written is what ComposeProof and ReduceIncremental answer.
use wavicle.Prelude.{
  ℕ, suc, ◌≤◌, ◌<◌, Bytes, false, not, ◌≡◌, refl, ap, ◌∙◌, some, [], ◌∷◌, ok, lookup, bytes_eq,
  ◌==◌, if◌then◌else◌, arith, bytes_beq,
}
use wavicle.Core.{Hash, Value, const, Atom, Time, Platform, is_zero}
use wavicle.Fidelity.{ObservationMode}
use wavicle.Storage.Store.{frontier_store}
use wavicle.Storage.FrontierCache.{
  FrontierCache, expired, unexpired, get_current_hash, changed, verify_version_vector,
  find_changed_paths, append_atom, new_atom, estimate_atom_bytes,
}
use wavicle.Storage.FrontierCache.Drop.{IsValid}
use wavicle.Storage.FrontierCache.Reads.{get_current-IsValid}
use wavicle.Storage.FrontierCache.Append.{append_atom-IsValid, append_atom-entry}
use wavicle.Engine.Proof.{no_work}
use wavicle.Engine.Proof.Compose.{Proof, compose_proof}
use wavicle.Engine.Proof.Leaf.{Shows, compose_proof-const}

-- a valid cache with this entry
abbrev pub Holds : Bytes → Atom → FrontierCache → Type 0
Holds path a f = IsValid f × lookup path f.entries ≡ some a

module _ (now : Time) (path : Bytes) (a : Atom) (live : expired now a ≡ false) (f : FrontierCache)
    (stored : lookup path f.entries ≡ some a) where
  hash_here : get_current_hash path now f ≡ some a.hash
  unfolding get_current_hash
  hash_here = rw (get_current_hash, stored, unexpired, live) refl

  current_here : unexpired now (lookup path f.entries) ≡ some a
  unfolding unexpired
  current_here = rw (stored, live) refl

  changed_here : (h : Hash) → changed path h now f ≡ not (a.hash == h)
  unfolding changed bytes_beq
  changed_here h = rw (changed, stored, live) (ground arith)

  verify_here : (h : Hash) → verify_version_vector ((path, h) ∷ []) now f ≡ (a.hash == h)
  unfolding verify_version_vector
  verify_here h = rw (changed_here h) (ground arith)

  find_here :
      (h : Hash)
      → find_changed_paths ((path, h) ∷ []) now f ≡ (if a.hash == h then [] else path ∷ [])
  unfolding find_changed_paths
  find_here h = rw (changed_here h) (ground arith)

pub frontier_store-Shows :
    (os : Platform) (now : Time) (path : Bytes) (a : Atom)
    → expired now a ≡ false
    → Shows (frontier_store os) now path a (Holds path a)
frontier_store-Shows os now path a live = record {
  current = λ f (v, h).
      let (_, _, answer, _) = get_current-IsValid path now f v in
      answer ∙ current_here now path a live f h;
  stays = λ f (v, h).
      let (w, same, _, _) = get_current-IsValid path now f v in (w, ap (lookup path) same ∙ h);
  hash = λ f (v, h). hash_here now path a live f h;
  verify = λ k f (v, h). verify_here now path a live f h k;
  find = λ k f (v, h). find_here now path a live f h k;
}

module _ (os : Platform) (xxhash : Bytes → ℕ) (path : Bytes) (named : (path == []) ≡ false) where
  -- For a valid cache and a path that is not empty: after AppendAtom of a constant whose atom is at most 80% of the
  -- limit and has a hash that is not zero, ComposeProof of the path, with any fuel, at a time when the
  -- atom has not expired and in any mode, gives a proof with the constant as its value, and the cache is valid.
  pub compose_proof-append_atom :
      (v : Value) (expires_at now later : Time) (f : FrontierCache) (fuel : ℕ)
      (mode : ObservationMode)
      → IsValid f
      → 0 < f.max_memory_bytes
      → let a = new_atom os (const v) path expires_at now (suc f.clock) in
        estimate_atom_bytes path a ≤ os.eighty_percent f.max_memory_bytes
        → expired later a ≡ false
        → is_zero a.hash ≡ false
        → let g = (append_atom os (const v) path expires_at now f).0 in
          let r =
            compose_proof os xxhash (frontier_store os) later (suc fuel) path mode (no_work g) in
          (proof : Proof) × (r.0 ≡ ok proof) × (proof.value ≡ v) × IsValid r.1.store
  unfolding new_atom
  compose_proof-append_atom v expires_at now later f fuel mode valid limited fits live z =
      let a = new_atom os (const v) path expires_at now (suc f.clock) in
      let g = (append_atom os (const v) path expires_at now f).0 in
      let (w, _, _) = append_atom-IsValid os (const v) path expires_at now f valid limited in
      let here = append_atom-entry os (const v) path expires_at now f valid fits in
      let (proof, done, value, _, _, _, (still, _)) =
        compose_proof-const os xxhash (frontier_store os) later path a (Holds path a)
          (frontier_store-Shows os later path a live) v g fuel mode refl refl named z (w, here) in
      (proof, done, value, still)
