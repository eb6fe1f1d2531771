-- ===== src/Server/Extended/SortedSets.antt =====
-- The sorted-set commands of HandleExtended, internal/protocol/resp3/extended.go: a sorted set is a
-- VRecord from the members to their scores, VFloats. Maps are values here, as with the sets.
use wavicle.Prelude.{
  ℕ, suc, Bytes, codes, bytes_eq, ◌==◌, Dict, lookup, insert, if◌then◌else◌, is_some, Option, none,
  some, List, [], ◌∷◌, ◌++◌, length, to_upper, Bool, true, false,
}
use wavicle.Core.{Value, float, dict, Time, str_less, end}
use wavicle.Storage.Store.{Store}
use wavicle.Server.State.{pure, raise, ◌>>=◌, ◌>>◌, set_key_type, zset_key, is_zset_record}
use wavicle.Server.Commands.{crlf, integer, bulk_string, nil_reply}
use wavicle.Server.Values.{
  Runtime, Handler, arity_reply, empty_array, digit_reply, given, array_of, entries, of_entries,
  window, remove_members, put_map, put_value, require_known, read_as,
}
use wavicle.Server.Extended.Lists.{range_of}

abbrev pub not_float : Bytes
not_float = codes "ERR value is not a valid float" ++ crlf

-- a value that isZSetRecord takes, as a map
unfoldable pub as_zset : Option Value → Option (Dict Bytes Value)
unfolding is_zset_record entries
as_zset (some (dict fs)) = if is_zset_record fs then some (entries fs) else none
as_zset _ = none

-- what ZADD takes: an empty record too
unfoldable pub as_scores : Option Value → Option (Dict Bytes Value)
unfolding as_zset
as_scores (some (dict end)) = some []
as_scores v = as_zset v

-- the score of an entry; 0 for a value that is no VFloat
unfoldable pub score_of : Value → ℕ
score_of (float x) = x
score_of _ = 0

module _ (go : Runtime) where
  -- the order of ZRANGE: by score, then by member
  unfoldable pub ranks_before : Bytes × ℕ → Bytes × ℕ → Bool
  unfolding str_less
  ranks_before a b = if go.float_same a.1 b.1 then str_less a.0 b.0 else go.float_less a.1 b.1

  -- sort.Slice by that order
  unfoldable pub put_ranked : Bytes × ℕ → List (Bytes × ℕ) → List (Bytes × ℕ)
  unfolding ranks_before
  put_ranked a [] = a ∷ []
  put_ranked a (b ∷ bs) =
      let rest = put_ranked a bs in if ranks_before b a then b ∷ rest else a ∷ b ∷ bs

  unfoldable pub ranked : Dict Bytes Value → List (Bytes × ℕ)
  unfolding put_ranked score_of
  ranked [] = []
  ranked ((k, v) ∷ m) = put_ranked (k, score_of v) (ranked m)

  -- each member with its score
  unfoldable pub scored : List (Bytes × ℕ) → List Bytes
  scored [] = []
  scored ((k, x) ∷ ms) = k ∷ go.shortest x ∷ scored ms

abbrev pub firsts : List (Bytes × ℕ) → List Bytes
firsts [] = []
firsts ((k, x) ∷ ms) = k ∷ firsts ms

-- an even number of arguments, at least two
abbrev pub paired : List Bytes → Bool
paired [] = false
paired (a ∷ []) = false
paired (a ∷ b ∷ []) = true
paired (a ∷ b ∷ c) = paired c

-- WITHSCORES as the argument behind the range
abbrev pub with_scores : List Bytes → Bool
with_scores [] = false
with_scores (word ∷ _) = to_upper word == codes "WITHSCORES"

abbrev pub scores : Option (Dict Bytes Value) → Dict Bytes Value
scores none = []
scores (some m) = m

module _ {S : Type 0} (go : Runtime) (st : Store S) (now : Time) where
  -- the loop of ZADD over its pairs of a score and a member: the map, and how many members are new
  unfoldable pub add_scores : List Bytes → Dict Bytes Value → ℕ → Handler S (Dict Bytes Value × ℕ)
  unfolding given lookup insert
  add_scores (text ∷ k ∷ more) m added = given (go.parse_float text) (raise not_float) (λ x.
      add_scores more (insert k (float x) m) (if is_some (lookup k m) then added else suc added))
  add_scores (text ∷ []) m added = raise arity_reply
  add_scores [] m added = pure (m, added)

  -- ZADD
  unfoldable pub zadd_command : List Bytes → Handler S Bytes
  unfolding require_known read_as as_scores add_scores put_value of_entries set_key_type integer
  zadd_command [] = raise arity_reply
  zadd_command (key ∷ pairs) =
      if paired pairs
      then (do
        require_known st now key zset_key
        found ← read_as st now as_scores key
        r ← add_scores pairs (scores found) 0
        put_value st now key (dict (of_entries r.0))
        set_key_type key zset_key
        pure (integer r.1))
      else raise arity_reply

  -- ZSCORE
  unfoldable pub zscore_command : List Bytes → Handler S Bytes
  unfolding read_as as_zset lookup bulk_string
  zscore_command (key ∷ k ∷ _) = do
    found ← read_as st now as_zset key
    pure (elim (lookup k (scores found)) [
      | some (float x) ↦ bulk_string (go.shortest x)
      | _ ↦ nil_reply
    ])
  zscore_command _ = raise arity_reply

  -- ZCARD
  unfoldable pub zcard_command : List Bytes → Handler S Bytes
  unfolding read_as as_zset integer
  zcard_command [] = raise arity_reply
  zcard_command (key ∷ _) = do
    found ← read_as st now as_zset key
    pure (elim found [ none ↦ digit_reply 0 | some m ↦ integer (length m) ])

  -- ZREM, which asks for no type
  unfoldable pub zrem_command : List Bytes → Handler S Bytes
  unfolding read_as given as_zset remove_members put_map integer
  zrem_command (key ∷ k ∷ ks) = do
    found ← read_as st now as_zset key
    given found (pure (digit_reply 0)) (λ m. do
      put_map st now key (remove_members (k ∷ ks) m).0
      pure (integer (remove_members (k ∷ ks) m).1))
  zrem_command _ = raise arity_reply

  -- ZRANGE
  unfoldable pub zrange_command : List Bytes → Handler S Bytes
  unfolding read_as given as_zset ranked range_of window array_of scored to_upper
  zrange_command (key ∷ low ∷ high ∷ more) = do
    found ← read_as st now as_zset key
    given found (pure empty_array) (λ m. do
      (start, stop) ← range_of low high
      given (window (ranked go m) start stop) (pure empty_array)
          (λ ms. pure (array_of (if with_scores more then scored go ms else firsts ms))))
  zrange_command _ = raise arity_reply
