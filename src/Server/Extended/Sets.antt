-- ===== src/Server/Extended/Sets.antt =====
-- The set commands of HandleExtended, internal/protocol/resp3/extended.go: a set is a VRecord whose
-- values are VInt(1). Maps are values here: that SREM deletes from the stored map itself is left out.
use wavicle.Prelude.{
  ℕ, suc, Bytes, bytes_eq, Dict, keys, lookup, insert, if◌then◌else◌, is_some, Option, none, some,
  List, [], ◌∷◌, length,
}
use wavicle.Core.{Value, int, dict, Time}
use wavicle.Storage.Store.{Store}
use wavicle.Server.State.{pure, raise, ◌>>=◌, ◌>>◌, set_key_type, set_key, is_set_record}
use wavicle.Server.Commands.{integer}
use wavicle.Server.Values.{
  Handler, arity_reply, empty_array, digit_reply, given, array_of, entries, of_entries,
  sort_strings, remove_members, put_map, put_value, require_type, read_as,
}

-- a value that isSetRecord takes, as a map
unfoldable pub as_set : Option Value → Option (Dict Bytes Value)
unfolding is_set_record entries
as_set (some (dict fs)) = if is_set_record fs then some (entries fs) else none
as_set _ = none

-- the loop of SADD: the members, and how many of them are new
unfoldable pub add_members : List Bytes → Dict Bytes Value → Dict Bytes Value × ℕ
unfolding lookup insert
add_members [] m = (m, 0)
add_members (k ∷ ks) m =
    let (m', n) = add_members ks (insert k (int 1) m) in
    (m', if is_some (lookup k m) then n else suc n)

abbrev pub members : Option (Dict Bytes Value) → Dict Bytes Value
members none = []
members (some m) = m

module _ {S : Type 0} (st : Store S) (now : Time) where
  -- SADD
  unfoldable pub sadd_command : List Bytes → Handler S Bytes
  unfolding require_type read_as as_set add_members put_value of_entries set_key_type integer
  sadd_command (key ∷ k ∷ ks) = do
    require_type st now key set_key
    found ← read_as st now as_set key
    let r = add_members (k ∷ ks) (members found)
    put_value st now key (dict (of_entries r.0))
    set_key_type key set_key
    pure (integer r.1)
  sadd_command _ = raise arity_reply

  -- SREM
  unfoldable pub srem_command : List Bytes → Handler S Bytes
  unfolding require_type read_as given as_set remove_members put_map integer
  srem_command (key ∷ k ∷ ks) = do
    require_type st now key set_key
    found ← read_as st now as_set key
    given found (pure (digit_reply 0)) (λ m. do
      put_map st now key (remove_members (k ∷ ks) m).0
      pure (integer (remove_members (k ∷ ks) m).1))
  srem_command _ = raise arity_reply

  -- SMEMBERS
  unfoldable pub smembers_command : List Bytes → Handler S Bytes
  unfolding read_as as_set array_of sort_strings
  smembers_command [] = raise arity_reply
  smembers_command (key ∷ _) = do
    found ← read_as st now as_set key
    pure (elim found [ none ↦ empty_array | some m ↦ array_of (sort_strings (keys m)) ])

  -- SCARD
  unfoldable pub scard_command : List Bytes → Handler S Bytes
  unfolding read_as as_set integer
  scard_command [] = raise arity_reply
  scard_command (key ∷ _) = do
    found ← read_as st now as_set key
    pure (elim found [ none ↦ digit_reply 0 | some m ↦ integer (length m) ])

  -- SISMEMBER
  unfoldable pub sismember_command : List Bytes → Handler S Bytes
  unfolding read_as as_set lookup
  sismember_command (key ∷ k ∷ _) = do
    found ← read_as st now as_set key
    pure (if is_some (lookup k (members found)) then digit_reply 1 else digit_reply 0)
  sismember_command _ = raise arity_reply
