-- ===== src/Server/Commands/RoundTrip.antt =====
-- SET followed by GET, on a server over a FrontierCache.
use wavicle.Prelude.{
  get_elem?, arith, some, List, ℕ, suc, ◌≤◌, ◌<◌, Bytes, codes, false, ◌≡◌, refl, sym, ap, ◌∙◌,
  subst, ◌==◌, bytes_eq, Option, none, [], ◌∷◌, length, has_prefix, to_upper, ok, insert,
}
use wavicle.Core.{Hash, Value, string, const, Atom, Time, Platform, is_zero}
use wavicle.Storage.Store.{frontier_store}
use wavicle.Storage.FrontierCache.{
  FrontierCache, append_atom, new_atom, estimate_atom_bytes, expired,
}
use wavicle.Storage.FrontierCache.Drop.{IsValid}
use wavicle.Storage.FrontierCache.Append.{append_atom-IsValid, append_atom-entry}
use wavicle.Engine.Proof.Fresh.{Holds, frontier_store-Shows}
use wavicle.Replication.SlotMonitor.Guard.{stale_refused}
use wavicle.Server.State.{Server, string_key, Command, set_key_type, current, assert_key_type}
use wavicle.Server.Commands.{
  ok_reply, bulk_string, query_hash, append, write_string, set_string, set_command, get_command,
}
use wavicle.Server.Commands.Kept.{Kept, after, current-Kept, assert_key_type-Kept}
use wavicle.Server.Commands.Reads.{Misses, get_command-Shows, get_command-cached}
use wavicle.Engine.ProofCache.{ProofCache, get}
use wavicle.Engine.Proof.{ProofNode}
use wavicle.Engine.Proof.Compose.{Proof}
use wavicle.Engine.Proof.Renewal.{leaf_proof}

-- The proof cache has a proof of the path under the key; it has one node and was made when the path had
-- the hash `made`.
pub record Caches (path : Bytes) (key : Hash) (proofs : List Proof) (cache : ProofCache ℕ)
    : Type 0 where
  pub after_get : ProofCache ℕ
  pub element : ℕ
  pub made : Hash
  pub node : ProofNode
  pub proof : Proof
  pub hit : get key cache ≡ some (after_get, some element)
  pub here : get_elem? proofs element ≡ some (leaf_proof path made node proof)

module _ (os : Platform) (xxhash : Bytes → ℕ) (show : Value → Bytes) (fuel : ℕ)
    (path val : Bytes) where
  -- the atom of SET
  abbrev pub set_atom : Time → ℕ → Atom
  set_atom now clock = new_atom os (const (string val)) path 0 now clock

  -- the server on which SET appends its atom
  abbrev looked : Time → Server FrontierCache → Server FrontierCache
  looked now s =
      after os now (current (frontier_store os) now path)
        (after os now (assert_key_type (frontier_store os) now path string_key) s)

  abbrev written : Time → Server FrontierCache → Server FrontierCache
  written now u = record u {
    store = (append_atom os (const (string val)) path 0 now u.store).0;
    key_types = insert path string_key u.key_types;
  }

  looked-Kept : (now : Time) (s : Server FrontierCache) → IsValid s.store → Kept s (looked now s)
  looked-Kept now s v =
      let t = after os now (assert_key_type (frontier_store os) now path string_key) s in
      let k = assert_key_type-Kept os now path string_key s v in
      let j = current-Kept os now path t k.valid in
      record {
        valid = j.valid;
        limit = j.limit ∙ k.limit;
        clock = j.clock ∙ k.clock;
        proofs = j.proofs ∙ k.proofs;
        proof_cache = j.proof_cache ∙ k.proof_cache;
        stale_guard = j.stale_guard ∙ k.stale_guard;
      }

  set_command-written :
      (now : Time) (s : Server FrontierCache)
      → (assert_key_type (frontier_store os) now path string_key s).1 ≡ ok tt
      → set_command os xxhash show (frontier_store os) (suc fuel) now (path ∷ val ∷ []) s
        ≡ (written now (looked now s), ok ok_reply)
  unfolding set_command set_string write_string append set_key_type current
  set_command-written now s free = rw free refl

  abbrev Answers :
      Time → (Bytes → Command FrontierCache (Bytes × Option Bytes)) → Server FrontierCache → Type 0
  Answers later select t =
      (get_command os xxhash show (frontier_store os) (suc fuel) later select (path ∷ []) t).1
      ≡ ok (bulk_string (show (string val)))

  get_command-written :
      (now later : Time) (u : Server FrontierCache)
      (select : Bytes → Command FrontierCache (Bytes × Option Bytes))
      → IsValid u.store
      → 0 < u.store.max_memory_bytes
      → (path == []) ≡ false
      → has_prefix (to_upper path) (codes "SELECT") ≡ false
      → estimate_atom_bytes path (set_atom now (suc u.store.clock))
        ≤ os.eighty_percent u.store.max_memory_bytes
      → is_zero (set_atom now (suc u.store.clock)).hash ≡ false
      → Misses
          (query_hash os xxhash show (frontier_store os) (suc fuel) later path)
          (length u.proofs)
          u.proof_cache
      → stale_refused u.stale_guard later ≡ none
      → Answers later select (written now u)
  unfolding new_atom expired
  get_command-written now later u select v limited n plain fits z m fresh =
      let a = set_atom now (suc u.store.clock) in
      let (w, _, _) = append_atom-IsValid os (const (string val)) path 0 now u.store v limited in
      let here = append_atom-entry os (const (string val)) path 0 now u.store v fits in
      get_command-Shows os xxhash show (frontier_store os) fuel later path a (Holds path a)
        (frontier_store-Shows os later path a refl) val refl (written now u) select [] m fresh plain
        refl n z (w, here)

  -- On a server over a valid FrontierCache with a memory limit, for a path that is not empty, does not
  -- begin with SELECT and may hold a string, and a value whose atom is at most 80% of the limit and has a hash that is not zero:
  -- SET replies OK, and GET of the path, at any time when the stale guard does not refuse, replies the value as a
  -- bulk string, if the path's proof is not cached yet and the proof cache takes it, and if fmt writes a string as it is.
  pub set_command-get_command :
      (now later : Time) (s : Server FrontierCache)
      (select : Bytes → Command FrontierCache (Bytes × Option Bytes))
      → IsValid s.store
      → 0 < s.store.max_memory_bytes
      → (assert_key_type (frontier_store os) now path string_key s).1 ≡ ok tt
      → (path == []) ≡ false
      → has_prefix (to_upper path) (codes "SELECT") ≡ false
      → estimate_atom_bytes path (set_atom now (suc s.store.clock))
        ≤ os.eighty_percent s.store.max_memory_bytes
      → is_zero (set_atom now (suc s.store.clock)).hash ≡ false
      → Misses
          (query_hash os xxhash show (frontier_store os) (suc fuel) later path)
          (length s.proofs)
          s.proof_cache
      → stale_refused s.stale_guard later ≡ none
      → show (string val) ≡ val
      → let r = set_command os xxhash show (frontier_store os) (suc fuel) now (path ∷ val ∷ []) s in
        (r.1 ≡ ok ok_reply)
        × ((get_command os xxhash show
              (frontier_store os)
              (suc fuel)
              later
              select
              (path ∷ [])
              r.0).1
            ≡ ok (bulk_string val))
  set_command-get_command now later s select v limited free n plain fits z m fresh shown =
      let u = looked now s in
      let k = looked-Kept now s v in
      rw (set_command-written now s free) (
        refl,
        get_command-written now later u select k.valid (subst (λ x. 0 < x) (sym k.limit) limited) n
              plain (rw (k.clock, k.limit) fits) (rw k.clock z) (rw (k.proofs, k.proof_cache) m)
              (rw k.stale_guard fresh)
            ∙ ap (λ (x : Bytes). ok (bulk_string x)) shown,
      )

  get_cached-written :
      (now later : Time) (u : Server FrontierCache)
      (select : Bytes → Command FrontierCache (Bytes × Option Bytes))
      (c : Caches path
        (query_hash os xxhash show (frontier_store os) (suc fuel) later path)
        u.proofs
        u.proof_cache)
      → IsValid u.store
      → 0 < u.store.max_memory_bytes
      → (path == []) ≡ false
      → has_prefix (to_upper path) (codes "SELECT") ≡ false
      → estimate_atom_bytes path (set_atom now (suc u.store.clock))
        ≤ os.eighty_percent u.store.max_memory_bytes
      → is_zero (set_atom now (suc u.store.clock)).hash ≡ false
      → ((set_atom now (suc u.store.clock)).hash == c.made) ≡ false
      → stale_refused u.stale_guard later ≡ none
      → Answers later select (written now u)
  unfolding new_atom expired
  get_cached-written now later u select c v limited n plain fits z other fresh =
      let a = set_atom now (suc u.store.clock) in
      let (w, _, _) = append_atom-IsValid os (const (string val)) path 0 now u.store v limited in
      let here = append_atom-entry os (const (string val)) path 0 now u.store v fits in
      get_command-cached os xxhash show (frontier_store os) fuel later path a (Holds path a)
        (frontier_store-Shows os later path a refl) val refl c.made c.node c.proof c.element
        (written now u) select [] c.hit c.here (λ h. ground (arith, other)) fresh plain n z
        (w, here)

  -- On a server over a valid FrontierCache with a memory limit, for a path that is not empty, does not
  -- begin with SELECT and may hold a string, whose proof is cached, has one node and was made when the path had another
  -- hash, and a value whose atom is at most 80% of the limit and has a hash that is not zero: SET
  -- replies OK, and GET of the path, at any time when the stale guard does not refuse, replies the new value
  -- as a bulk string, if fmt writes a string as it is.
  pub set_command-get_cached :
      (now later : Time) (s : Server FrontierCache)
      (select : Bytes → Command FrontierCache (Bytes × Option Bytes))
      (c : Caches path
        (query_hash os xxhash show (frontier_store os) (suc fuel) later path)
        s.proofs
        s.proof_cache)
      → IsValid s.store
      → 0 < s.store.max_memory_bytes
      → (assert_key_type (frontier_store os) now path string_key s).1 ≡ ok tt
      → (path == []) ≡ false
      → has_prefix (to_upper path) (codes "SELECT") ≡ false
      → estimate_atom_bytes path (set_atom now (suc s.store.clock))
        ≤ os.eighty_percent s.store.max_memory_bytes
      → is_zero (set_atom now (suc s.store.clock)).hash ≡ false
      → ((set_atom now (suc s.store.clock)).hash == c.made) ≡ false
      → stale_refused s.stale_guard later ≡ none
      → show (string val) ≡ val
      → let r = set_command os xxhash show (frontier_store os) (suc fuel) now (path ∷ val ∷ []) s in
        (r.1 ≡ ok ok_reply)
        × ((get_command os xxhash show
              (frontier_store os)
              (suc fuel)
              later
              select
              (path ∷ [])
              r.0).1
            ≡ ok (bulk_string val))
  set_command-get_cached now later s select c v limited free n plain fits z other fresh shown =
      let u = looked now s in
      let k = looked-Kept now s v in
      let c' : Caches path (query_hash os xxhash show (frontier_store os) (suc fuel) later path)
          u.proofs u.proof_cache =
        record {
          after_get = c.after_get;
          element = c.element;
          made = c.made;
          node = c.node;
          proof = c.proof;
          hit = rw k.proof_cache c.hit;
          here = rw k.proofs c.here;
        } in
      rw (set_command-written now s free) (
        refl,
        get_cached-written now later u select c' k.valid (subst (λ x. 0 < x) (sym k.limit) limited)
              n plain (rw (k.clock, k.limit) fits) (rw k.clock z) (rw k.clock other)
              (rw k.stale_guard fresh)
            ∙ ap (λ (x : Bytes). ok (bulk_string x)) shown,
      )
