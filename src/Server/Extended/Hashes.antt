-- ===== src/Server/Extended/Hashes.antt =====
-- handleHashExtended of internal/protocol/resp3/extended.go: a hash is the paths `key:field`.
use wavicle.Prelude.{
  ℕ, suc, Bytes, codes, bytes_eq, Dict, keys, lookup, insert, Bool, true, false, if◌then◌else◌,
  is_some, Option, none, some, List, [], ◌∷◌, ◌++◌, length, has_prefix, trim_prefix, map,
}
use wavicle.Core.{Value, string, null, Time}
use wavicle.Storage.Store.{Store}
use wavicle.Server.State.{
  pure, raise, ◌>>=◌, ◌>>◌, set_key_type, del_key_type, KeyType, hash_key, same_type,
}
use wavicle.Server.Commands.{integer, bulk_string, nil_reply, ok_reply}
use wavicle.Server.Commands.Mass.{array_header, field_path}
use wavicle.Server.Values.{
  Runtime, Handler, arity_reply, digit_reply, given, as_string, array_of, found_atom, sort_strings,
  cur_value, put_value, require_known, known_type,
}
use wavicle.Server.Extended.SortedSets.{paired}

abbrev pub is_hash : Option KeyType → Bool
is_hash none = false
is_hash (some t) = same_type t hash_key

module _ {S : Type 0} (go : Runtime) (st : Store S) (now : Time) where
  -- the loop of HMSET over its pairs
  unfoldable pub put_fields : Bytes → List Bytes → Handler S (Unit {0})
  unfolding put_value
  put_fields key (f ∷ val ∷ more) = do
    put_value st now (field_path key f) (string val)
    put_fields key more
  put_fields key _ = pure tt

  -- HMSET
  unfoldable pub hmset_command : List Bytes → Handler S Bytes
  unfolding require_known put_fields set_key_type
  hmset_command [] = raise arity_reply
  hmset_command (key ∷ pairs) =
      if paired pairs
      then (do
        require_known st now key hash_key
        put_fields key pairs
        set_key_type key hash_key
        pure ok_reply)
      else raise arity_reply

  -- one field of HMGET
  unfoldable pub field_value : Bytes → Handler S Bytes
  unfolding cur_value as_string bulk_string
  field_value path = do
    found ← cur_value st now path
    pure (elim found [
      | none ↦ nil_reply
      | some v ↦ elim (as_string go v) [ none ↦ nil_reply | some s ↦ bulk_string s ]
    ])

  -- the loop of HMGET
  unfoldable pub field_values : Bytes → List Bytes → Handler S Bytes
  unfolding field_value
  field_values key [] = pure []
  field_values key (f ∷ fs) = do
    r ← field_value (field_path key f)
    rest ← field_values key fs
    pure (r ++ rest)

  -- HMGET
  unfoldable pub hmget_command : List Bytes → Handler S Bytes
  unfolding field_values array_header
  hmget_command (key ∷ f ∷ fs) = do
    values ← field_values key (f ∷ fs)
    pure (array_header (length (f ∷ fs)) ++ values)
  hmget_command _ = raise arity_reply

  -- the loop of HDEL: a field with any atom, a tombstone too, is written with a tombstone and counted
  unfoldable pub bury_fields : Bytes → List Bytes → Handler S ℕ
  unfolding found_atom given put_value
  bury_fields key [] = pure 0
  bury_fields key (f ∷ fs) = do
    found ← found_atom st now (field_path key f)
    given found (bury_fields key fs)
        (λ a. do put_value st now (field_path key f) null; n ← bury_fields key fs; pure (suc n))

  -- the search of HDEL for a field that is left
  unfoldable pub any_left : Bytes → List Bytes → Handler S Bool
  unfolding cur_value given
  any_left prefix [] = pure false
  any_left prefix (p ∷ ps) =
      let rest = any_left prefix ps in
      if has_prefix p prefix
      then (do found ← cur_value st now p; given found rest (λ v. pure true))
      else rest

  -- the type leaves the index unless a field is left on the paths
  unfoldable pub drop_unless : Bytes → List Bytes → Handler S (Unit {0})
  unfolding any_left del_key_type
  drop_unless key paths = do
    left ← any_left (key ++ codes ":") paths
    if left then pure tt else del_key_type key

  unfoldable pub unless_left : Bytes → Handler S (Unit {0})
  unfolding drop_unless
  unless_left key s = drop_unless key (st.frontier_paths now s.store) s

  -- the end of HDEL: a hash without fields leaves the index
  unfoldable pub drop_empty : Bytes → Handler S (Unit {0})
  unfolding known_type unless_left
  drop_empty key = do t ← known_type st now key; if is_hash t then unless_left key else pure tt

  -- HDEL
  unfoldable pub hdel_command : List Bytes → Handler S Bytes
  unfolding bury_fields drop_empty integer
  hdel_command (key ∷ f ∷ fs) = do n ← bury_fields key (f ∷ fs); drop_empty key; pure (integer n)
  hdel_command _ = raise arity_reply

  -- the map with one more field, if its value is a string
  unfoldable pub with_field : Bytes → Option (Option Value) → Dict Bytes Bytes → Dict Bytes Bytes
  unfolding as_string insert
  with_field f none m = m
  with_field f (some v) m = elim (as_string go v) [ none ↦ m | some s ↦ insert f s m ]

  -- the map of the fields whose values are strings
  unfoldable pub collect_fields : Bytes → List Bytes → Handler S (Dict Bytes Bytes)
  unfolding cur_value with_field trim_prefix
  collect_fields prefix [] = pure []
  collect_fields prefix (p ∷ ps) =
      let rest = collect_fields prefix ps in
      if has_prefix p prefix
      then (do
        found ← cur_value st now p
        m ← rest
        pure (with_field (trim_prefix p prefix) found m))
      else rest

  unfoldable pub hash_fields : Bytes → Handler S (Dict Bytes Bytes)
  unfolding collect_fields
  hash_fields key s = collect_fields (key ++ codes ":") (st.frontier_paths now s.store) s

  -- HLEN
  unfoldable pub hlen_command : List Bytes → Handler S Bytes
  unfolding hash_fields integer
  hlen_command [] = raise arity_reply
  hlen_command (key ∷ _) = do m ← hash_fields key; pure (integer (length m))

  -- HEXISTS
  unfoldable pub hexists_command : List Bytes → Handler S Bytes
  unfolding hash_fields lookup
  hexists_command (key ∷ f ∷ _) = do
    m ← hash_fields key
    pure (if is_some (lookup f m) then digit_reply 1 else digit_reply 0)
  hexists_command _ = raise arity_reply

  -- HKEYS
  unfoldable pub hkeys_command : List Bytes → Handler S Bytes
  unfolding hash_fields array_of sort_strings
  hkeys_command [] = raise arity_reply
  hkeys_command (key ∷ _) = do m ← hash_fields key; pure (array_of (sort_strings (keys m)))

  abbrev value_at : Dict Bytes Bytes → Bytes → Bytes
  value_at m f = elim (lookup f m) [ none ↦ [] | some s ↦ s ]

  -- HVALS, in the order of the fields
  unfoldable pub hvals_command : List Bytes → Handler S Bytes
  unfolding hash_fields array_of sort_strings
  hvals_command [] = raise arity_reply
  hvals_command (key ∷ _) = do
    m ← hash_fields key
    pure (array_of (map (value_at m) (sort_strings (keys m))))
