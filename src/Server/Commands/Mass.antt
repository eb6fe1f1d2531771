-- ===== src/Server/Commands/Mass.antt =====
-- The commands of internal/protocol/resp3/server.go on many keys, hash fields and expiry.
use wavicle.Prelude.{
  ℕ, zero, suc, ◌*◌, ◌-◌, ◌/◌, ◌%◌, ◌^◌, Bytes, codes, not, ◌||◌, ltb, leb, ◌==◌, nat_eq, bytes_eq,
  if◌then◌else◌, none, some, List, [], ◌∷◌, ◌++◌, length, drop, has_prefix, decimal, atoi, ℤ, pos,
  negsuc, ok, err,
}
use wavicle.Core.{Value, Time, Platform}
use wavicle.Storage.Store.{Store}
use wavicle.Server.State.{
  hash_key, wrong_arity, invalid_expire_time, Command, pure, raise, ◌>>=◌, ◌>>◌, set_key_type,
  visible, key_type_of, assert_key_type, refuse_stale,
}
use wavicle.Server.Commands.{
  crlf, bulk_string, integer, ok_reply, nil_reply, format_value, duration, add_time, value_of,
  read_or_nil, append, write_string, set_string,
}

-- the header of an array
unfoldable pub array_header : ℕ → Bytes
array_header n = b'*' ∷ decimal n ++ crlf

-- the path of a field of a hash
abbrev pub field_path : Bytes → Bytes → Bytes
field_path key f = key ++ codes ":" ++ f

module _ {S : Type 0} (os : Platform) (xxhash : Bytes → ℕ) (show : Value → Bytes) (st : Store S)
    (fuel : ℕ) (now : Time) where
  -- the replies of a command on each key, one behind the other
  unfoldable pub join_replies : (Bytes → Command S Bytes) → List Bytes → Command S Bytes
  join_replies f [] = pure []
  join_replies f (p ∷ ps) = do r ← f p; rest ← join_replies f ps; pure (r ++ rest)

  -- MGET
  unfoldable pub mget_command : List Bytes → Command S Bytes
  unfolding refuse_stale join_replies read_or_nil array_header
  mget_command paths = do
    refuse_stale st now
    elim paths [
      | [] ↦ raise (wrong_arity (codes "mget"))
      | p ∷ ps ↦ do
        replies ← join_replies (read_or_nil os xxhash show st fuel now) (p ∷ ps)
        pure (array_header (length (p ∷ ps)) ++ replies)
    ]

  -- the loop of MSET over its pairs; the arity is tested before
  unfoldable pub set_pairs : List Bytes → Command S Bytes
  unfolding set_string
  set_pairs (path ∷ val ∷ more) = do set_string os xxhash show st fuel now path val; set_pairs more
  set_pairs _ = pure ok_reply

  -- MSET
  unfoldable pub mset_command : List Bytes → Command S Bytes
  unfolding set_pairs
  mset_command pairs =
      if ltb (length pairs) 2 || not (length pairs % 2 == 0)
      then raise (wrong_arity (codes "mset"))
      else set_pairs pairs

  -- the guard of HSET: an error of assertKeyType counts if the key has a type
  unfoldable pub assert_hash : Bytes → Command S (Unit {0})
  unfolding assert_key_type key_type_of
  assert_hash key s =
      let r = assert_key_type st now key hash_key s in
      elim r.1 [
        | ok _ ↦ pure tt r.0
        | err e ↦
            (do found ← key_type_of st now key; elim found [ none ↦ pure tt | some _ ↦ raise e ])
              r.0
      ]

  -- HSET, which reads one field and its value and always replies 1
  unfoldable pub hset_command : List Bytes → Command S Bytes
  unfolding assert_hash write_string set_key_type integer
  hset_command (key ∷ f ∷ val ∷ _) = do
    assert_hash key
    write_string os xxhash show st fuel now (field_path key f) val
    set_key_type key hash_key
    pure (integer 1)
  hset_command _ = raise (wrong_arity (codes "hset"))

  -- HGET
  unfoldable pub hget_command : List Bytes → Command S Bytes
  unfolding refuse_stale read_or_nil
  hget_command args = do
    refuse_stale st now
    elim args [
      | key ∷ f ∷ _ ↦ read_or_nil os xxhash show st fuel now (field_path key f)
      | _ ↦ raise (wrong_arity (codes "hget"))
    ]

  -- the loop of HGETALL over the paths: the fields of the key that are visible
  unfoldable pub fields_of : Bytes → List Bytes → Command S (List Bytes)
  unfolding visible
  fields_of prefix [] = pure []
  fields_of prefix (p ∷ ps) =
      let others = fields_of prefix ps in
      if has_prefix p prefix
      then (do
        found ← visible st now p
        rest ← others
        pure (elim found [ none ↦ rest | some _ ↦ drop (length prefix) p ∷ rest ]))
      else others

  -- one field of HGETALL and its value
  unfoldable pub field_reply : Bytes → Bytes → Command S Bytes
  unfolding value_of bulk_string
  field_reply prefix f = do
    value ← value_of os xxhash show st fuel now (prefix ++ f)
    pure (bulk_string f ++ elim value [ none ↦ nil_reply | some v ↦ format_value show v ])

  -- HGETALL
  unfoldable pub hgetall_command : List Bytes → Command S Bytes
  unfolding refuse_stale fields_of join_replies field_reply array_header
  hgetall_command args = do
    refuse_stale st now
    elim args [
      | [] ↦ raise (wrong_arity (codes "hgetall"))
      | key ∷ _ ↦ λ s.
          (do
            found ← fields_of (key ++ codes ":") (st.frontier_paths now s.store)
            replies ← join_replies (field_reply (key ++ codes ":")) found
            pure (array_header (length found * 2) ++ replies))
            s
    ]

  -- the end of EXPIRE, for a count of seconds
  unfoldable pub expire_at : Bytes → ℤ → Command S Bytes
  unfolding visible append integer duration add_time
  expire_at path (negsuc n) = pure (integer 0)
  expire_at path (pos zero) = pure (integer 0)
  expire_at path (pos (suc n)) = do
    found ← visible st now path
    elim found [
      | none ↦ pure (integer 0)
      | some a ↦ do
        append os xxhash show st fuel now path a.expr (add_time now (duration (suc n))) (some a)
        pure (integer 1)
    ]

  -- EXPIRE
  unfoldable pub expire_command : List Bytes → Command S Bytes
  unfolding expire_at
  expire_command (path ∷ seconds ∷ _) = elim (atoi seconds) [
    | none ↦ raise invalid_expire_time
    | some n ↦ expire_at path n
  ]
  expire_command _ = raise (wrong_arity (codes "expire"))

  -- the reply of TTL for an expiry: whole seconds, rounded down
  unfoldable pub ttl_reply : Time → Bytes
  unfolding integer
  ttl_reply expires =
      if expires == 0
      then codes ":-1" ++ crlf
      else if leb expires now
      then codes ":-2" ++ crlf
      else integer ((expires - now) / 10 ^ 9)

  -- TTL
  unfoldable pub ttl_command : List Bytes → Command S Bytes
  unfolding visible ttl_reply
  ttl_command [] = raise (wrong_arity (codes "ttl"))
  ttl_command (path ∷ _) = do
    found ← visible st now path
    pure (elim found [ none ↦ codes ":-2" ++ crlf | some a ↦ ttl_reply a.expires_at ])
