-- ===== src/Server/Commands.antt =====
-- HandleCommand of internal/protocol/resp3/server.go, on a store that is not a WriteThroughStore.
-- Parameters: `show` is fmt's %v of a value, `select` what GET does first with a path that begins with
-- SELECT (SQLToProofTree: the path to go on with, and the reply if there is one), and `extended` is
-- HandleExtended, which Server.Extended models. The metrics are left out.
pub mod Mass
pub mod Dispatch
pub mod Stale
pub mod Reads
pub mod Kept
pub mod Expiry
pub mod RoundTrip
use wavicle.Prelude.{
  ℕ, zero, suc, ◌+◌, ◌*◌, ◌-◌, ◌/◌, ◌%◌, ◌^◌, Bytes, codes, Bool, true, false, not, ◌&&◌, ◌||◌, ltb,
  leb, ◌==◌, nat_eq, bytes_eq, if◌then◌else◌, Option, none, some, List, [], ◌∷◌, ◌++◌, length,
  get_elem?, set, Dict, has_prefix, to_upper, decimal, atoi, ℤ, pos, negsuc, Outcome, ok, err,
}
use wavicle.Core.{
  Hash, Value, null, string, dict, Fields, end, field, Expr, const, Atom, Time, Platform,
}
use wavicle.Fidelity.{mode_deductive}
use wavicle.Storage.Store.{Store}
use wavicle.Engine.Combinators.{EngineError, path_not_found, missing_children, unsupported}
use wavicle.Engine.ProofCache.{ProofCache, get, put}
use wavicle.Engine.Proof.{no_work}
use wavicle.Engine.Proof.Compose.{Proof, compose_proof}
use wavicle.Engine.Proof.Incremental.{Reduction, reduce_incremental}
use wavicle.Server.State.{
  Server, KeyType, string_key, CommandError, wrong_arity, invalid_expire_time, store_failed,
  no_proof, crashed, Command, pure, raise, ◌>>=◌, ◌>>◌, set_key_type, del_key_type, current,
  visible, assert_key_type, refuse_stale,
}

abbrev pub crlf : Bytes
crlf = 13 ∷ 10 ∷ []

-- bulkString and formatBulkString
unfoldable pub bulk_string : Bytes → Bytes
bulk_string s = b'$' ∷ decimal (length s) ++ crlf ++ s ++ crlf

-- `:<n>`
unfoldable pub integer : ℕ → Bytes
integer n = b':' ∷ decimal n ++ crlf

abbrev pub ok_reply : Bytes
ok_reply = codes "+OK" ++ crlf

abbrev pub nil_reply : Bytes
nil_reply = codes "$-1" ++ crlf

-- formatValue
unfoldable pub format_value : (Value → Bytes) → Value → Bytes
unfolding bulk_string
format_value show (dict (field k v end)) = bulk_string (show v)
format_value show v = bulk_string (show v)

-- `time.Duration(seconds) * time.Second` on 64 bits, for a count of seconds above 0
unfoldable pub duration : ℕ → ℤ
duration seconds =
    let n = seconds * 10 ^ 9 % 2 ^ 64 in if ltb n (2 ^ 63) then pos n else negsuc (2 ^ 64 - n - 1)

-- `now.Add(d)`; a time before the epoch is 1, in the past and not the zero time
unfoldable pub add_time : Time → ℤ → Time
add_time now (pos n) = now + n
add_time now (negsuc n) = if ltb (suc n) now then now - suc n else 1

-- the errors of an engine's result that the source sees as errors
handled : {S A : Type 0} → EngineError → Command S (Option A)
handled (path_not_found p) = pure none
handled missing_children = pure none
handled unsupported = pure none
handled _ = raise crashed

module _ {S : Type 0} (os : Platform) (xxhash : Bytes → ℕ) (show : Value → Bytes) (st : Store S)
    (fuel : ℕ) (now : Time) where
  -- the key of a path's proof: the hash of the path and the mode
  unfoldable pub query_hash : Bytes → Hash
  query_hash path = os.sha3 (path ++ mode_deductive ∷ [])

  -- s.proofCache.Get
  unfoldable pub cached_proof : Hash → Command S (Option ℕ)
  cached_proof key s = elim (get key s.proof_cache) [
    | none ↦ raise crashed s
    | some (cache, found) ↦ pure found (record s { proof_cache = cache })
  ]

  -- s.proofCache.Set of a proof that has just been made
  unfoldable pub store_proof : Hash → Proof → Command S (Unit {0})
  store_proof key proof s = elim (put key (length s.proofs) s.proof_cache) [
    | none ↦ raise crashed s
    | some cache ↦ pure tt (record s { proof_cache = cache; proofs = s.proofs ++ proof ∷ [] })
  ]

  -- ReduceIncremental of a cached proof, which it changes in place; none for an error
  unfoldable pub reduce_cached : ℕ → Command S (Option Value)
  unfolding handled
  reduce_cached e s = elim (get_elem? s.proofs e) [
    | none ↦ raise crashed s
    | some proof ↦
        let r = reduce_incremental os xxhash st now fuel proof s.store in
        let s' = record s { store = r.store; proofs = set s.proofs e r.proof } in
        elim r.result [ ok v ↦ pure (some v) s' | err e ↦ handled e s' ]
  ]

  -- the value of the cached proof of a query
  unfoldable pub cached_value : Hash → Command S (Option Value)
  unfolding cached_proof reduce_cached
  cached_value key = do
    found ← cached_proof key
    elim found [ none ↦ pure none | some e ↦ reduce_cached e ]

  -- ComposeProof and the Set of its proof; none for an error
  unfoldable pub composed_value : Hash → Bytes → Command S (Option Value)
  unfolding store_proof handled
  composed_value key path s =
      let r = compose_proof os xxhash st now fuel path mode_deductive (no_work s.store) in
      let s' = record s { store = r.1.store } in
      elim r.0 [
        | err e ↦ handled e s'
        | ok proof ↦ (do store_proof key proof; pure (some proof.value)) s'
      ]

  -- the value of a path, from its cached proof or a new one
  unfoldable pub value_of : Bytes → Command S (Option Value)
  unfolding cached_value composed_value query_hash
  value_of path = do
    cached ← cached_value (query_hash path)
    elim cached [ some v ↦ pure (some v) | none ↦ composed_value (query_hash path) path ]

  -- the reply to a read of a path; an error of ComposeProof is nil
  unfoldable pub read_or_nil : Bytes → Command S Bytes
  unfolding visible value_of
  read_or_nil path = do
    found ← visible st now path
    elim found [
      | none ↦ pure nil_reply
      | some a ↦ do
        value ← value_of path
        pure (elim value [ none ↦ nil_reply | some v ↦ format_value show v ])
    ]

  -- AppendAtom, with the hash of the path's current atom as its parent
  unfoldable pub append : Bytes → Expr → Time → Option Atom → Command S (Unit {0})
  append path expr expires_at prev s =
      let parents : List Hash = elim prev [ none ↦ [] | some a ↦ a.hash ∷ [] ] in
      let r = st.append_atom expr path parents expires_at now s.store in
      let s' = record s { store = r.0 } in
      elim r.1 [ ok _ ↦ pure tt s' | err e ↦ raise (store_failed e) s' ]

  -- a path that gets a string as its value
  unfoldable pub write_string : Bytes → Bytes → Command S (Unit {0})
  unfolding current append
  write_string path val = do prev ← current st now path; append path (const (string val)) 0 prev

  -- the write of SET and of one pair of MSET
  unfoldable pub set_string : Bytes → Bytes → Command S (Unit {0})
  unfolding assert_key_type write_string set_key_type
  set_string path val = do
    assert_key_type st now path string_key
    write_string path val
    set_key_type path string_key

  -- SET
  unfoldable pub set_command : List Bytes → Command S Bytes
  unfolding set_string
  set_command (path ∷ val ∷ _) = do set_string path val; pure ok_reply
  set_command _ = raise (wrong_arity (codes "set"))

  -- GET of a path, after the part on SQL
  unfoldable pub get_path : Bytes → Command S Bytes
  unfolding visible value_of
  get_path path = do
    found ← visible st now path
    elim found [
      | none ↦ pure nil_reply
      | some a ↦ do
        value ← value_of path
        elim value [
          | none ↦ raise (no_proof (path_not_found path))
          | some v ↦ pure (format_value show v)
        ]
    ]

  -- GET
  unfoldable pub get_command :
      (Bytes → Command S (Bytes × Option Bytes)) → List Bytes → Command S Bytes
  unfolding refuse_stale get_path
  get_command select args = do
    refuse_stale st now
    elim args [
      | [] ↦ raise (wrong_arity (codes "get"))
      | path ∷ _ ↦
          if has_prefix (to_upper path) (codes "SELECT")
          then (do
            (path', reply) ← select path
            elim reply [ none ↦ get_path path' | some r ↦ pure r ])
          else get_path path
    ]

  -- one key of DEL, and what it adds to the count
  unfoldable pub delete_key : Bytes → Command S ℕ
  unfolding current append del_key_type
  delete_key path = do
    prev ← current st now path
    elim prev [
      | none ↦ pure 0
      | some a ↦ λ s.
          let r = append path (const null) 0 (some a) s in
          elim r.1 [ ok _ ↦ (do del_key_type path; pure 1) r.0 | err _ ↦ pure 0 r.0 ]
    ]

  -- one key of EXISTS and of DBSIZE
  unfoldable pub count_key : Bytes → Command S ℕ
  unfolding visible
  count_key path = do found ← visible st now path; pure (elim found [ none ↦ 0 | some _ ↦ 1 ])

  -- the sum of a command on each key
  unfoldable pub sum_keys : (Bytes → Command S ℕ) → List Bytes → Command S ℕ
  sum_keys f [] = pure 0
  sum_keys f (p ∷ ps) = do n ← f p; rest ← sum_keys f ps; pure (n + rest)

  -- DEL
  unfoldable pub del_command : List Bytes → Command S Bytes
  unfolding sum_keys delete_key integer
  del_command [] = raise (wrong_arity (codes "del"))
  del_command (p ∷ ps) = do n ← sum_keys delete_key (p ∷ ps); pure (integer n)

  -- EXISTS
  unfoldable pub exists_command : List Bytes → Command S Bytes
  unfolding sum_keys count_key integer
  exists_command [] = raise (wrong_arity (codes "exists"))
  exists_command (p ∷ ps) = do n ← sum_keys count_key (p ∷ ps); pure (integer n)

  -- DBSIZE
  unfoldable pub dbsize_command : Command S Bytes
  unfolding sum_keys count_key integer
  dbsize_command s = (do n ← sum_keys count_key (st.frontier_paths now s.store); pure (integer n)) s
