-- ===== src/Server/Extended/Streams.antt =====
-- The stream commands of HandleExtended, internal/protocol/resp3/extended.go: a stream is a VArray of
-- VRecords, each with its ID under "_id".
use wavicle.Prelude.{
  ℕ, ◌*◌, ◌/◌, ◌^◌, Bytes, codes, bytes_eq, nat_eq, ◌==◌, ◌&&◌, ◌||◌, not, ltb, Dict, keys, lookup,
  insert, delete, Bool, true, false, if◌then◌else◌, Option, none, some, List, [], ◌∷◌, ◌++◌, length,
  decimal, atoi, pos,
}
use wavicle.Core.{Value, string, dict, array, Time}
use wavicle.Storage.Store.{Store}
use wavicle.Server.State.{pure, raise, ◌>>=◌, ◌>>◌, set_key_type, stream_key}
use wavicle.Server.Commands.{crlf, integer, bulk_string}
use wavicle.Server.Commands.Mass.{array_header}
use wavicle.Server.Values.{
  Runtime, Handler, arity_reply, empty_array, digit_reply, given, to_string, element_reply,
  as_array, of_items, entries, of_entries, sort_strings, put_value, require_type, read_as,
}
use wavicle.Server.Extended.Lists.{slice}

abbrev pub bad_id : Bytes
bad_id = codes "ERR invalid stream ID, expected <millis>-<seq>" ++ crlf

abbrev pub bad_min : Bytes
bad_min = codes "ERR invalid stream ID, expected <millis>-<seq> or -" ++ crlf

abbrev pub bad_max : Bytes
bad_max = codes "ERR invalid stream ID, expected <millis>-<seq> or +" ++ crlf

-- strings.SplitN(id, "-", 2); none for a text without a dash
unfoldable pub split_dash : Bytes → Option (Bytes × Bytes)
split_dash [] = none
split_dash (c ∷ s) =
    let rest = split_dash s in
    if c == b'-' then some ([], s) else elim rest [ none ↦ none | some p ↦ some (c ∷ p.0, p.1) ]

-- parseStreamID: the milliseconds and the sequence number
unfoldable pub parse_stream_id : Bytes → Option (ℕ × ℕ)
unfolding split_dash
parse_stream_id id = elim (split_dash id) [
  | none ↦ none
  | some p ↦ elim (atoi p.0) [
    | some (pos ms) ↦ elim (atoi p.1) [ some (pos seq) ↦ some (ms, seq) | _ ↦ none ]
    | _ ↦ none
  ]
]

-- one ID before another
unfoldable pub id_less : ℕ × ℕ → ℕ × ℕ → Bool
id_less a b = ltb a.0 b.0 || a.0 == b.0 && ltb a.1 b.1

-- an ID between two bounds, of which none is open
unfoldable pub id_between : Option (ℕ × ℕ) → Option (ℕ × ℕ) → ℕ × ℕ → Bool
unfolding id_less
id_between low high id =
    not (elim low [ none ↦ false | some a ↦ id_less id a ])
    && not (elim high [ none ↦ false | some b ↦ id_less b id ])

-- `rec, _ := e.(core.VRecord)`
unfoldable pub record_of : Value → Dict Bytes Value
unfolding entries
record_of (dict fs) = entries fs
record_of _ = []

module _ (go : Runtime) where
  -- the text of an entry's ID
  unfoldable pub entry_id : Value → Bytes
  unfolding record_of lookup to_string
  entry_id e = elim (lookup (codes "_id") (record_of e)) [
    | none ↦ []
    | some v ↦ elim (to_string go v) [ none ↦ [] | some s ↦ s ]
  ]

  -- the test of XRANGE on an entry, which skips one whose ID does not parse
  unfoldable pub in_range : Option (ℕ × ℕ) → Option (ℕ × ℕ) → Value → Bool
  unfolding parse_stream_id entry_id id_between
  in_range low high e = elim (parse_stream_id (entry_id e)) [
    | none ↦ false
    | some id ↦ id_between low high id
  ]

  -- the filter of XRANGE
  unfoldable pub select_range : Option (ℕ × ℕ) → Option (ℕ × ℕ) → List Value → List Value
  unfolding in_range
  select_range low high [] = []
  select_range low high (e ∷ es) =
      let rest = select_range low high es in if in_range low high e then e ∷ rest else rest

  -- the fields of an entry, sorted, with their values
  unfoldable pub pairs_reply : Dict Bytes Value → List Bytes → Bytes
  unfolding lookup bulk_string element_reply
  pairs_reply m [] = []
  pairs_reply m (k ∷ ks) =
      bulk_string k
      ++ elim (lookup k m) [ none ↦ [] | some v ↦ element_reply go v ]
      ++ pairs_reply m ks

  -- one entry: its ID and the array of its fields
  unfoldable pub entry_reply : Value → Bytes
  unfolding entry_id record_of pairs_reply array_header bulk_string sort_strings delete
  entry_reply e =
      let m = record_of e in
      let ks = sort_strings (keys (delete (codes "_id") m)) in
      array_header 2 ++ bulk_string (entry_id e) ++ array_header (length ks * 2) ++ pairs_reply m ks

  unfoldable pub entry_replies : List Value → Bytes
  unfolding entry_reply
  entry_replies [] = []
  entry_replies (e ∷ es) = entry_reply e ++ entry_replies es

-- the fields of XADD on top of "_id"; a field of that name replaces the ID
unfoldable pub with_fields : List Bytes → Dict Bytes Value → Dict Bytes Value
unfolding insert
with_fields (f ∷ val ∷ more) m = with_fields more (insert f (string val) m)
with_fields _ m = m

-- the fields of XADD: at least one, each with a value
abbrev pub is_even : List Bytes → Bool
is_even [] = true
is_even (f ∷ []) = false
is_even (f ∷ val ∷ more) = is_even more

module _ {S : Type 0} (go : Runtime) (st : Store S) (now : Time) where
  -- the ID of XADD: the clock for a star
  unfoldable pub new_id : Bytes → Handler S Bytes
  unfolding given parse_stream_id
  new_id id =
      if id == codes "*"
      then pure (decimal (now / 10 ^ 6) ++ codes "-0")
      else given (parse_stream_id id) (raise bad_id) (λ p. pure id)

  -- XADD
  unfoldable pub xadd_command : List Bytes → Handler S Bytes
  unfolding require_type new_id read_as put_value set_key_type of_items of_entries with_fields
      bulk_string
  xadd_command (key ∷ text ∷ f ∷ val ∷ more) =
      if is_even more
      then (do
        require_type st now key stream_key
        id ← new_id text
        found ← read_as st now as_array key
        let entry : Value =
            dict (of_entries (with_fields (f ∷ val ∷ more) ((codes "_id", string id) ∷ [])))
        put_value st now key (array (of_items (slice found ++ entry ∷ [])))
        set_key_type key stream_key
        pure (bulk_string id))
      else raise arity_reply
  xadd_command _ = raise arity_reply

  -- XLEN
  unfoldable pub xlen_command : List Bytes → Handler S Bytes
  unfolding read_as integer
  xlen_command [] = raise arity_reply
  xlen_command (key ∷ _) = do
    found ← read_as st now as_array key
    pure (elim found [ none ↦ digit_reply 0 | some xs ↦ integer (length xs) ])

  -- a bound of XRANGE; none for an open one
  unfoldable pub range_bound : Bytes → Bytes → Bytes → Handler S (Option (ℕ × ℕ))
  unfolding given parse_stream_id
  range_bound free bad text =
      if text == free
      then pure none
      else given (parse_stream_id text) (raise bad) (λ id. pure (some id))

  -- XRANGE
  unfoldable pub xrange_command : List Bytes → Handler S Bytes
  unfolding read_as given range_bound select_range array_header entry_replies
  xrange_command (key ∷ low ∷ high ∷ _) = do
    found ← read_as st now as_array key
    given found (pure empty_array) (λ xs. do
      min ← range_bound (codes "-") bad_min low
      max ← range_bound (codes "+") bad_max high
      let es : List Value = select_range go min max xs
      pure (array_header (length es) ++ entry_replies go es))
  xrange_command _ = raise arity_reply
