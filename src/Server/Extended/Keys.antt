-- ===== src/Server/Extended/Keys.antt =====
-- The commands of HandleExtended on the keyspace, on expiry and on the connection,
-- internal/protocol/resp3/extended.go.
use wavicle.Prelude.{
  ℕ, suc, ◌-◌, ◌/◌, ◌^◌, Bytes, codes, bytes_eq, nat_eq, ◌==◌, ◌&&◌, ◌||◌, not, ltb, elem, lookup,
  Bool, true, false, if◌then◌else◌, Option, none, some, List, [], ◌∷◌, ◌++◌, length, take, decimal,
  atoi, pos, has_prefix, trim_suffix, to_upper, Dict, ok,
}
use wavicle.Core.{Value, dict, array, null, Atom, Time}
use wavicle.Storage.Store.{Store}
use wavicle.Server.State.{KeyType, pure, raise, ◌>>=◌, ◌>>◌, is_tombstone}
use wavicle.Server.Commands.{crlf, integer, bulk_string, ok_reply, add_time}
use wavicle.Server.Values.{
  Handler, arity_reply, digit_reply, given, array_of, sort_strings, cur_value, put_atom, put_value,
}
use wavicle.Server.Extended.Strings.{positive, milliseconds}
use wavicle.Server.Extended.Hashes.{is_hash}

-- the words of TYPE
unfoldable pub type_word : Option Value → Bytes
type_word (some (array vs)) = codes "+list" ++ crlf
type_word (some (dict fs)) = codes "+hash" ++ crlf
type_word _ = codes "+string" ++ crlf

unfoldable pub any_prefixed : Bytes → List Bytes → Bool
any_prefixed prefix [] = false
any_prefixed prefix (p ∷ ps) = has_prefix p prefix || any_prefixed prefix ps

-- `p[:strings.LastIndex(p, ":")]`; none without a colon
unfoldable pub before_colon : Bytes → Option Bytes
before_colon [] = none
before_colon (c ∷ s) =
    let rest = before_colon s in
    elim rest [ some t ↦ some (c ∷ t) | none ↦ if c == b':' then some [] else none ]

-- isHashKey
unfoldable pub is_hash_key : Dict Bytes KeyType → Bytes → Bool
unfolding lookup
is_hash_key types key = is_hash (lookup key types)

-- the key that KEYS and SCAN list for a path: its parent if that is a hash
unfoldable pub listed_key : Dict Bytes KeyType → Bytes → Bytes
unfolding before_colon is_hash_key
listed_key types p = elim (before_colon p) [
  | none ↦ p
  | some [] ↦ p
  | some (c ∷ t) ↦ if is_hash_key types (c ∷ t) then c ∷ t else p
]

-- the loop of KEYS and SCAN over the paths: each key once
unfoldable pub matching_keys : Dict Bytes KeyType → Bytes → List Bytes → List Bytes
unfolding listed_key has_prefix elem
matching_keys types prefix [] = []
matching_keys types prefix (p ∷ ps) =
    let rest = matching_keys types prefix ps in
    let key = listed_key types p in
    if (has_prefix key prefix || has_prefix p prefix) && not (elem key rest)
    then key ∷ rest
    else rest

-- the prefix that a pattern stands for
unfoldable pub pattern_prefix : Bytes → Bytes
unfolding trim_suffix
pattern_prefix pat = if pat == codes "*" then [] else trim_suffix pat (codes "*")

-- the options of SCAN: the pattern and the count; the cursor is read and not used
unfoldable pub scan_options : List Bytes → Bytes → ℕ → Bytes × ℕ
scan_options (word ∷ val ∷ more) pat count = elim (to_upper word == codes "MATCH") [
  | true ↦ scan_options more val count
  | false ↦ elim (to_upper word == codes "COUNT") [
    | true ↦ scan_options more pat (elim (atoi val) [ some (pos (suc n)) ↦ suc n | _ ↦ count ])
    | false ↦ scan_options (val ∷ more) pat count
  ]
]
scan_options _ pat count = (pat, count)

-- the first keys of a sorted list, up to a count
abbrev pub first_keys : ℕ → List Bytes → List Bytes
first_keys count ks = if ltb count (length ks) then take count ks else ks

module _ {S : Type 0} (st : Store S) (now : Time) where
  -- TYPE of a key without a value
  unfoldable pub absent_type : Bytes → Handler S Bytes
  unfolding any_prefixed
  absent_type key s =
      pure
        (if any_prefixed (key ++ codes ":") (st.frontier_paths now s.store)
          then codes "+hash" ++ crlf
          else codes "+none" ++ crlf)
        s

  -- TYPE
  unfoldable pub type_command : List Bytes → Handler S Bytes
  unfolding cur_value given type_word absent_type
  type_command [] = raise arity_reply
  type_command (key ∷ _) = do
    found ← cur_value st now key
    given found (absent_type key) (λ v. pure (type_word v))

  -- KEYS
  unfoldable pub keys_command : List Bytes → Handler S Bytes
  unfolding matching_keys pattern_prefix sort_strings array_of
  keys_command [] s = raise arity_reply s
  keys_command (pat ∷ _) s =
      let found = matching_keys s.key_types (pattern_prefix pat) (st.frontier_paths now s.store) in
      pure (array_of (sort_strings found)) s

  -- SCAN
  unfoldable pub scan_command : List Bytes → Handler S Bytes
  unfolding scan_options matching_keys pattern_prefix sort_strings array_of
  scan_command args s =
      let (pat, count) = scan_options args (codes "*") 100 in
      let found = matching_keys s.key_types (pattern_prefix pat) (st.frontier_paths now s.store) in
      pure
        (codes "*2"
          ++ crlf
          ++ codes ":0"
          ++ crlf
          ++ array_of (first_keys count (sort_strings found)))
        s

  -- INFO, with the text of the time since the start
  unfoldable pub info_command : Bytes → Handler S Bytes
  unfolding bulk_string
  info_command uptime s =
      pure
        (bulk_string (
          codes "wavicle_version:1.0"
          ++ crlf
          ++ codes "uptime:"
          ++ uptime
          ++ crlf
          ++ codes "keys:"
          ++ decimal (length (st.frontier_paths now s.store))
          ++ crlf
          ++ codes "shards:32"
          ++ crlf))
        s

  -- the loop of FLUSHDB
  unfoldable pub bury_all : List Bytes → Handler S (Unit {0})
  unfolding put_value
  bury_all [] = pure tt
  bury_all (p ∷ ps) = do put_value st now p null; bury_all ps

  -- FLUSHDB and FLUSHALL, with clearKeyTypes
  unfoldable pub flush_command : Handler S Bytes
  unfolding bury_all
  flush_command s =
      let r = bury_all (st.frontier_paths now s.store) s in
      (record (r.0) { key_types = [] }, ok ok_reply)

  -- GetCurrent, less the tombstones
  unfoldable pub visible_atom : Bytes → Handler S (Option Atom)
  unfolding is_tombstone
  visible_atom path s =
      let r = st.get_current path now s.store in
      (
        record s { store = r.0 },
        ok (elim r.1 [ none ↦ none | some a ↦ if is_tombstone a then none else some a ]),
      )

  -- the milliseconds that an expiry is away
  unfoldable pub pttl_reply : Time → Bytes
  unfolding integer
  pttl_reply expires =
      if expires == 0
      then codes ":-1" ++ crlf
      else if (expires - now) / 10 ^ 6 == 0
      then codes ":-2" ++ crlf
      else integer ((expires - now) / 10 ^ 6)

  -- PEXPIRE
  unfoldable pub pexpire_command : List Bytes → Handler S Bytes
  unfolding positive visible_atom given put_atom milliseconds add_time
  pexpire_command (key ∷ amount ∷ _) = do
    ms ← positive amount
    found ← visible_atom key
    given found (pure (digit_reply 0))
        (λ a. do put_atom st now key a.expr (add_time now (milliseconds ms)); pure (digit_reply 1))
  pexpire_command _ = raise arity_reply

  -- PTTL
  unfoldable pub pttl_command : List Bytes → Handler S Bytes
  unfolding visible_atom pttl_reply
  pttl_command [] = raise arity_reply
  pttl_command (key ∷ _) = do
    found ← visible_atom key
    pure (elim found [ none ↦ codes ":-2" ++ crlf | some a ↦ pttl_reply a.expires_at ])

  -- PERSIST
  unfoldable pub persist_command : List Bytes → Handler S Bytes
  unfolding visible_atom given put_atom
  persist_command [] = raise arity_reply
  persist_command (key ∷ _) = do
    found ← visible_atom key
    given found (pure (digit_reply 0)) (λ a.
        if a.expires_at == 0
        then pure (digit_reply 0)
        else (do put_atom st now key a.expr 0; pure (digit_reply 1)))
