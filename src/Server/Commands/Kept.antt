-- ===== src/Server/Commands/Kept.antt =====
-- The look at the type of a key, on a server over a FrontierCache.
use wavicle.Prelude.{
  Bytes, codes, ◌≡◌, refl, bytes_eq, Option, none, some, ◌++◌, Outcome, ok, err, lookup, inl, inr,
  Bool-cases, if_cases,
}
use wavicle.Core.{Atom, Time, Platform}
use wavicle.Storage.Store.{frontier_store}
use wavicle.Storage.FrontierCache.{FrontierCache}
use wavicle.Storage.FrontierCache.Drop.{IsValid}
use wavicle.Storage.FrontierCache.Reads.{get_current-IsValid, get_current-kept}
use wavicle.Server.State.{
  Server, KeyType, CommandError, Command, ◌>>=◌, set_key_type, current, visible, is_tombstone,
  remember, untombed, infer_from, indexed, check_type, continue, key_type_of, assert_key_type,
  has_child, same_type,
}

-- What a look at the keys leaves alone: everything but the recency of the paths and the index of types.
pub record Kept (s t : Server FrontierCache) : Type 0 where
  pub valid : IsValid t.store
  pub limit : t.store.max_memory_bytes ≡ s.store.max_memory_bytes
  pub clock : t.store.clock ≡ s.store.clock
  pub proofs : t.proofs ≡ s.proofs
  pub proof_cache : t.proof_cache ≡ s.proof_cache
  pub stale_guard : t.stale_guard ≡ s.stale_guard

module _ (os : Platform) (now : Time) where
  abbrev pub after :
      {A : Type 0} → Command FrontierCache A → Server FrontierCache → Server FrontierCache
  after m s = (m s).0

  pub current-Kept :
      (path : Bytes) (s : Server FrontierCache)
      → IsValid s.store
      → Kept s (after (current (frontier_store os) now path) s)
  unfolding current
  current-Kept path s v = record {
    valid = let (w, _, _, _) = get_current-IsValid path now s.store v in w;
    limit = (get_current-kept path now s.store).0;
    clock = (get_current-kept path now s.store).1;
    proofs = refl;
    proof_cache = refl;
    stale_guard = refl;
  }

  module _ {A B : Type 0} (s : Server FrontierCache) (next : A → Command FrontierCache B) where
    continue-Kept :
        (o : Outcome CommandError A) (t : Server FrontierCache)
        → Kept s t
        → ((a : A) (u : Server FrontierCache) → Kept s u → Kept s (next a u).0)
        → Kept s (continue next t o).0
    continue-Kept (err e) t k go = k
    continue-Kept (ok a) t k go = go a t k

    bind-Kept :
        (m : Command FrontierCache A)
        → Kept s (after m s)
        → ((a : A) (u : Server FrontierCache) → Kept s u → Kept s (next a u).0)
        → Kept s (after (m >>= next) s)
    bind-Kept m k go = continue-Kept (m s).1 (m s).0 k go

  typed-Kept :
      (key : Bytes) (t : KeyType) (s u : Server FrontierCache)
      → Kept s u
      → Kept s (after (remember (frontier_store os) now key t) u)
  unfolding remember set_key_type
  typed-Kept key t s u k = record {
    valid = k.valid;
    limit = k.limit;
    clock = k.clock;
    proofs = k.proofs;
    proof_cache = k.proof_cache;
    stale_guard = k.stale_guard;
  }

  untombed-Kept :
      (x : Option Atom) (s u : Server FrontierCache)
      → Kept s u
      → Kept s (after (untombed (frontier_store os) now x) u)
  untombed-Kept none s u k = k
  untombed-Kept (some a) s u k = elim (Bool-cases (is_tombstone a)) [
    | inl t ↦ rw t k
    | inr n ↦ rw n k
  ]

  infer_from-Kept :
      (key : Bytes) (x : Option Atom) (s u : Server FrontierCache)
      → Kept s u
      → Kept s (after (infer_from (frontier_store os) now key x) u)
  unfolding infer_from
  infer_from-Kept key (some a) s u k = typed-Kept key _ s u k
  infer_from-Kept key none s u k =
      if_cases (λ (r : Server FrontierCache × Outcome CommandError (Option KeyType)). Kept s r.0)
        (has_child (key ++ codes ":") ((frontier_store os).frontier_paths now u.store)) _ _
        (typed-Kept key _ s u k) k

  same-Kept : (s : Server FrontierCache) → IsValid s.store → Kept s s
  same-Kept s v = record {
    valid = v;
    limit = refl;
    clock = refl;
    proofs = refl;
    proof_cache = refl;
    stale_guard = refl;
  }

  visible-Kept :
      (key : Bytes) (s : Server FrontierCache)
      → IsValid s.store
      → Kept s (after (visible (frontier_store os) now key) s)
  unfolding visible
  visible-Kept key s v =
      bind-Kept s (untombed (frontier_store os) now) (current (frontier_store os) now key)
        (current-Kept key s v) (λ x u k. untombed-Kept x s u k)

  indexed-Kept :
      (key : Bytes) (x : Option KeyType) (s : Server FrontierCache)
      → IsValid s.store
      → Kept s (after (indexed (frontier_store os) now key x) s)
  unfolding indexed
  indexed-Kept key (some t) s v = same-Kept s v
  indexed-Kept key none s v =
      bind-Kept s (infer_from (frontier_store os) now key) (visible (frontier_store os) now key)
        (visible-Kept key s v) (λ x u k. infer_from-Kept key x s u k)

  key_type_of-Kept :
      (key : Bytes) (s : Server FrontierCache)
      → IsValid s.store
      → Kept s (after (key_type_of (frontier_store os) now key) s)
  unfolding key_type_of
  key_type_of-Kept key s v = indexed-Kept key (lookup key s.key_types) s v

  check_type-Kept :
      (want : KeyType) (x : Option KeyType) (s u : Server FrontierCache)
      → Kept s u
      → Kept s (after (check_type (frontier_store os) now want x) u)
  check_type-Kept want none s u k = k
  check_type-Kept want (some t) s u k = elim (Bool-cases (same_type t want)) [
    | inl y ↦ rw y k
    | inr n ↦ rw n k
  ]

  pub assert_key_type-Kept :
      (key : Bytes) (want : KeyType) (s : Server FrontierCache)
      → IsValid s.store
      → Kept s (after (assert_key_type (frontier_store os) now key want) s)
  unfolding assert_key_type
  assert_key_type-Kept key want s v =
      bind-Kept s (check_type (frontier_store os) now want)
        (key_type_of (frontier_store os) now key) (key_type_of-Kept key s v)
        (λ x u k. check_type-Kept want x s u k)
