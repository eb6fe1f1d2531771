-- ===== src/Server/Commands/Reads.antt =====
-- What GET answers for a path that a FrontierCache holds a string under.
use wavicle.Prelude.{
  get_elem?, true, ℕ, suc, Bytes, codes, false, ◌≡◌, refl, ◌==◌, bytes_eq, Option, none, some, List,
  [], ◌∷◌, length, has_prefix, to_upper, ok,
}
use wavicle.Core.{Hash, Value, string, const, Atom, Time, Platform, is_zero}
use wavicle.Fidelity.{mode_deductive}
use wavicle.Storage.Store.{Store}
use wavicle.Engine.ProofCache.{ProofCache, get, put}
use wavicle.Engine.Proof.{ProofNode, no_work}
use wavicle.Engine.Proof.Incremental.{reduce_incremental}
use wavicle.Engine.Proof.Renewal.{leaf_proof, reduce_incremental-const}
use wavicle.Engine.Proof.Compose.{Proof, compose_proof}
use wavicle.Engine.Proof.Leaf.{Shows, compose_proof-const}
use wavicle.Replication.SlotMonitor.Guard.{stale_refused}
use wavicle.Server.State.{Server, Command, current, visible, is_tombstone, refuse_stale}
use wavicle.Server.Commands.{
  bulk_string, format_value, query_hash, cached_proof, store_proof, reduce_cached, cached_value,
  composed_value, value_of, get_path, get_command,
}

-- The proof cache has no proof under the key, and takes one.
pub record Misses (key : Hash) (e : ℕ) (cache : ProofCache ℕ) : Type 0 where
  pub after : ProofCache ℕ
  pub missed : get key cache ≡ some (cache, none)
  pub taken : put key e cache ≡ some after

module _ {S : Type 0} (os : Platform) (xxhash : Bytes → ℕ) (show : Value → Bytes) (st : Store S)
    (fuel : ℕ) (now : Time) (path : Bytes) (a : Atom) (P : S → Type 0) (sh : Shows st now path a P)
    (val : Bytes) (e : a.expr ≡ const (string val)) where
  abbrev next : Server S → Server S
  next s = record s { store = (st.get_current path now s.store).0 }

  not_refused :
      (s : Server S) → stale_refused s.stale_guard now ≡ none → refuse_stale st now s ≡ (s, ok tt)
  unfolding refuse_stale
  not_refused s fresh = rw (refuse_stale, fresh) refl

  visible-Shows : (s : Server S) → P s.store → visible st now path s ≡ (next s, ok (some a))
  unfolding visible current is_tombstone
  visible-Shows s p = rw (sh.current s.store p, e) refl

  cached_proof-none :
      (s : Server S) (key : Hash)
      → get key s.proof_cache ≡ some (s.proof_cache, none)
      → cached_proof os xxhash show st (suc fuel) now key s ≡ (s, ok none)
  unfolding cached_proof
  cached_proof-none s key missed = rw (cached_proof, missed) refl

  cached_value-none :
      (s : Server S) (key : Hash)
      → get key s.proof_cache ≡ some (s.proof_cache, none)
      → cached_value os xxhash show st (suc fuel) now key s ≡ (s, ok none)
  unfolding cached_value
  cached_value-none s key missed = rw (cached_proof-none s key missed) refl

  store_proof-taken :
      (s : Server S) (key : Hash) (proof : Proof) {cache : ProofCache ℕ}
      → put key (length s.proofs) s.proof_cache ≡ some cache
      → (store_proof os xxhash show st (suc fuel) now key proof s).1 ≡ ok tt
  unfolding store_proof
  store_proof-taken s key proof taken = rw (store_proof, taken) refl

  composed_value-Shows :
      (s : Server S) (key : Hash)
      → Misses key (length s.proofs) s.proof_cache
      → a.path ≡ path
      → (path == []) ≡ false
      → is_zero a.hash ≡ false
      → P s.store
      → (composed_value os xxhash show st (suc fuel) now key path s).1 ≡ ok (some (string val))
  unfolding composed_value compose_proof
  composed_value-Shows s key m pe n z p =
      let (proof, done, value, _, _, _, _) =
        compose_proof-const os xxhash st now path a P sh (string val) s.store fuel mode_deductive e
          pe n z p in
      let r = compose_proof os xxhash st now (suc fuel) path mode_deductive (no_work s.store) in
      rw (done, store_proof-taken (record s { store = r.1.store }) key proof m.taken, value) refl

  -- For a store that goes on to show under a path that is not empty, and does not begin with SELECT, an atom of that path which
  -- is a string and has a hash that is not zero, while the stale guard does not refuse: GET of the path answers
  -- the text of the string as a bulk string, if its proof is not cached yet and the proof cache takes it.
  pub get_command-Shows :
      (s : Server S) (select : Bytes → Command S (Bytes × Option Bytes)) (more : List Bytes)
      → Misses (query_hash os xxhash show st (suc fuel) now path) (length s.proofs) s.proof_cache
      → stale_refused s.stale_guard now ≡ none
      → has_prefix (to_upper path) (codes "SELECT") ≡ false
      → a.path ≡ path
      → (path == []) ≡ false
      → is_zero a.hash ≡ false
      → P s.store
      → (get_command os xxhash show st (suc fuel) now select (path ∷ more) s).1
        ≡ ok (bulk_string (show (string val)))
  unfolding get_command get_path value_of format_value
  get_command-Shows s select more m fresh plain pe n z p =
      let key = query_hash os xxhash show st (suc fuel) now path in
      rw
        (
          not_refused s fresh,
          plain,
          visible-Shows s p,
          cached_value-none (next s) key m.missed,
          composed_value-Shows (next s) key m pe n z (sh.stays s.store p),
        )
        refl

  -- The proof of the path that is cached: one node, made when the path had the hash `made`.
  module _ (made : Hash) (node : ProofNode) (proof : Proof) (element : ℕ) where
    abbrev cached : Proof
    cached = leaf_proof path made node proof

    reduce_cached-Shows :
        (s : Server S)
        → get_elem? s.proofs element ≡ some cached
        → (path == []) ≡ false
        → is_zero a.hash ≡ false
        → ((a.hash == made) ≡ true → proof.value ≡ string val)
        → P s.store
        → (reduce_cached os xxhash show st (suc fuel) now element s).1 ≡ ok (some (string val))
    unfolding reduce_cached reduce_incremental
    reduce_cached-Shows s here n z same p =
        let (done, _, _, _) =
          reduce_incremental-const os xxhash st now path a P sh (string val) e n made node proof
            s.store fuel z same p in
        rw (reduce_cached, here, done) refl

    -- The proof cache has that proof under the key.
    cached_value-Shows :
        (s : Server S) (key : Hash) {after : ProofCache ℕ}
        → get key s.proof_cache ≡ some (after, some element)
        → get_elem? s.proofs element ≡ some cached
        → (path == []) ≡ false
        → is_zero a.hash ≡ false
        → ((a.hash == made) ≡ true → proof.value ≡ string val)
        → P s.store
        → (cached_value os xxhash show st (suc fuel) now key s).1 ≡ ok (some (string val))
    unfolding cached_value cached_proof
    cached_value-Shows s key {after} hit here n z same p =
        rw (cached_value, cached_proof, hit)
          (reduce_cached-Shows (record s { proof_cache = after }) here n z same p)

    value_of-Shows :
        (s : Server S) {after : ProofCache ℕ}
        → get (query_hash os xxhash show st (suc fuel) now path) s.proof_cache
          ≡ some (after, some element)
        → get_elem? s.proofs element ≡ some cached
        → (path == []) ≡ false
        → is_zero a.hash ≡ false
        → ((a.hash == made) ≡ true → proof.value ≡ string val)
        → P s.store
        → (value_of os xxhash show st (suc fuel) now path s).1 ≡ ok (some (string val))
    unfolding value_of
    value_of-Shows s hit here n z same p =
        rw
          (
            value_of,
            cached_value-Shows s (query_hash os xxhash show st (suc fuel) now path) hit here n z
                same p,
          )
          refl

    pub get_command-cached :
        (s : Server S) (select : Bytes → Command S (Bytes × Option Bytes)) (more : List Bytes)
        {after : ProofCache ℕ}
        → get (query_hash os xxhash show st (suc fuel) now path) s.proof_cache
          ≡ some (after, some element)
        → get_elem? s.proofs element ≡ some cached
        → ((a.hash == made) ≡ true → proof.value ≡ string val)
        → stale_refused s.stale_guard now ≡ none
        → has_prefix (to_upper path) (codes "SELECT") ≡ false
        → (path == []) ≡ false
        → is_zero a.hash ≡ false
        → P s.store
        → (get_command os xxhash show st (suc fuel) now select (path ∷ more) s).1
          ≡ ok (bulk_string (show (string val)))
    unfolding get_command get_path format_value
    get_command-cached s select more hit here same fresh plain n z p =
        rw
          (
            not_refused s fresh,
            plain,
            visible-Shows s p,
            value_of-Shows (next s) hit here n z same (sh.stays s.store p),
          )
          refl
