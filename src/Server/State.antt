-- ===== src/Server/State.antt =====
-- internal/protocol/resp3/server.go: the server's state, and the index of the types of its keys. A
-- *MaterializedProof is an index into the list of proofs, and the clock is read once for a command.
use wavicle.Prelude.{
  ℕ, Bytes, codes, Bool, true, false, ◌&&◌, ltb, ◌==◌, nat_eq, bytes_eq, if◌then◌else◌, Option,
  none, some, List, [], ◌∷◌, ◌++◌, length, Dict, lookup, insert, delete, has_prefix, Outcome, ok,
  err, is_some,
}
use wavicle.Core.{
  Value, array, dict, int, float, null, cons, Fields, end, field, Expr, const, Atom, Time,
}
use wavicle.Storage.Store.{Store}
use wavicle.Engine.Combinators.{EngineError, lookup_field}
use wavicle.Engine.ProofCache.{ProofCache}
use wavicle.Engine.Proof.Compose.{Proof}
use wavicle.Replication.SlotMonitor.Guard.{Stale, StaleGuard, stale_refused}

-- the types of the index; "none" is no type
pub data KeyType : Type 0 where
  string_key : KeyType
  list_key : KeyType
  set_key : KeyType
  zset_key : KeyType
  hash_key : KeyType
  stream_key : KeyType

abbrev pub same_type : KeyType → KeyType → Bool
same_type string_key string_key = true
same_type list_key list_key = true
same_type set_key set_key = true
same_type zset_key zset_key = true
same_type hash_key hash_key = true
same_type stream_key stream_key = true
same_type _ _ = false

-- Server, the fields that HandleCommand works on
pub record Server (S : Type 0) : Type 0 where
  pub store : S
  pub proofs : List Proof
  pub proof_cache : ProofCache ℕ
  pub key_types : Dict Bytes KeyType
  pub stale_guard : StaleGuard

-- The errors of HandleCommand. `crashed` is no error of the source: the engine has followed a nil
-- pointer, has a nil in place of a value or has run out of fuel, or the proof cache has no shards.
pub data CommandError : Type 0 where
  empty_command : CommandError
  wrong_arity : Bytes → CommandError
  wrong_type : CommandError
  stale : Stale → CommandError
  invalid_expire_time : CommandError
  store_failed : Bytes → CommandError
  no_proof : EngineError → CommandError
  unknown_command : Bytes → CommandError
  crashed : CommandError

-- what a command does to the server, with its early returns as the errors of E
abbrev pub Action : Type 0 → Type 0 → Type 0 → Type 0
Action S E A = Server S → Server S × Outcome E A

abbrev pub Command : Type 0 → Type 0 → Type 0
Command S A = Action S CommandError A

module _ {S E : Type 0} where
  abbrev pub pure : {A : Type 0} → A → Action S E A
  pure a s = (s, ok a)

  abbrev pub raise : {A : Type 0} → E → Action S E A
  raise e s = (s, err e)

  abbrev pub continue :
      {A B : Type 0} → (A → Action S E B) → Server S → Outcome E A → Server S × Outcome E B
  continue next s (err e) = (s, err e)
  continue next s (ok a) = next a s

  infixl 5 ◌>>=◌ ◌>>◌
  abbrev pub ◌>>=◌ : {A B : Type 0} → Action S E A → (A → Action S E B) → Action S E B
  ◌>>=◌ m next s = let r = m s in continue next r.0 r.1

  abbrev pub ◌>>◌ : {A B : Type 0} → Action S E A → Action S E B → Action S E B
  m >> n = m >>= λ _. n

  -- setKeyType and delKeyType
  unfoldable pub set_key_type : Bytes → KeyType → Action S E (Unit {0})
  set_key_type key t s = (record s { key_types = insert key t s.key_types }, ok tt)

  unfoldable pub del_key_type : Bytes → Action S E (Unit {0})
  del_key_type key s = (record s { key_types = delete key s.key_types }, ok tt)

-- isTombstone
unfoldable pub is_tombstone : Atom → Bool
is_tombstone a = elim a.expr [ const null ↦ true | _ ↦ false ]

-- isSetRecord
unfoldable pub is_set_record : Fields → Bool
is_set_record end = true
is_set_record (field k (int n) fs) = n == 1 && is_set_record fs
is_set_record (field k _ fs) = false

all_floats : Fields → Bool
all_floats end = true
all_floats (field k (float x) fs) = all_floats fs
all_floats (field k _ fs) = false

-- isZSetRecord
unfoldable pub is_zset_record : Fields → Bool
unfolding all_floats
is_zset_record end = false
is_zset_record (field k v fs) = all_floats (field k v fs)

-- the type of a stored value
unfoldable pub type_of_value : Value → KeyType
unfolding is_set_record is_zset_record lookup_field
type_of_value (array (cons (dict fs) vs)) =
    if is_some (lookup_field (codes "_id") fs) then stream_key else list_key
type_of_value (array _) = list_key
type_of_value (dict fs) =
    if is_zset_record fs then zset_key else if is_set_record fs then set_key else hash_key
type_of_value _ = string_key

-- the type of an expression: one that is no constant has a nil value, the default case
unfoldable pub type_of_expr : Expr → KeyType
unfolding type_of_value
type_of_expr (const v) = type_of_value v
type_of_expr _ = string_key

-- the search for a child `key:field`
unfoldable pub has_child : Bytes → List Bytes → Bool
has_child prefix [] = false
has_child prefix (p ∷ ps) =
    let rest = has_child prefix ps in
    if ltb (length prefix) (length p) && has_prefix p prefix then true else rest

module _ {S : Type 0} (st : Store S) (now : Time) where
  -- GetCurrent
  unfoldable pub current : Bytes → Command S (Option Atom)
  current path s = let r = st.get_current path now s.store in (record s { store = r.0 }, ok r.1)

  abbrev pub untombed : Option Atom → Command S (Option Atom)
  untombed none = pure none
  untombed (some a) = if is_tombstone a then pure none else pure (some a)

  -- GetCurrent, without an atom that isTombstone finds deleted
  unfoldable pub visible : Bytes → Command S (Option Atom)
  unfolding current is_tombstone
  visible path = current path >>= untombed

  -- `s.keyTypes.Store(key, t)` and the type
  unfoldable pub remember : Bytes → KeyType → Command S (Option KeyType)
  unfolding set_key_type
  remember key t = do set_key_type key t; pure (some t)

  -- the type that a key's visible atom gives it, or the children `key:field`
  unfoldable pub infer_from : Bytes → Option Atom → Command S (Option KeyType)
  unfolding remember type_of_expr has_child
  infer_from key (some a) s = remember key (type_of_expr a.expr) s
  infer_from key none s =
      if has_child (key ++ codes ":") (st.frontier_paths now s.store)
      then remember key hash_key s
      else pure none s

  -- the type that the index has, or else the one inferred
  unfoldable pub indexed : Bytes → Option KeyType → Command S (Option KeyType)
  unfolding visible infer_from
  indexed key (some t) = pure (some t)
  indexed key none = visible key >>= infer_from key

  -- keyTypeOf
  unfoldable pub key_type_of : Bytes → Command S (Option KeyType)
  unfolding indexed
  key_type_of key s = indexed key (lookup key s.key_types) s

  abbrev pub check_type : KeyType → Option KeyType → Command S (Unit {0})
  check_type want none = pure tt
  check_type want (some t) = if same_type t want then pure tt else raise wrong_type

  -- assertKeyType
  unfoldable pub assert_key_type : Bytes → KeyType → Command S (Unit {0})
  unfolding key_type_of
  assert_key_type key want = key_type_of key >>= check_type want

  -- staleRefused at the start of a read
  unfoldable pub refuse_stale : Command S (Unit {0})
  refuse_stale s = elim (stale_refused s.stale_guard now) [
    | none ↦ pure tt s
    | some e ↦ raise (stale e) s
  ]
