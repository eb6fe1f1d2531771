-- ===== src/Server/Extended/Indexing.antt =====
-- The types that the commands put into the index, against those that keyTypeOf infers from what they write.
use wavicle.Prelude.{
  ℕ, Bytes, codes, bytes_eq, bytes_beq, ◌==◌, ==_refl, Option, ok, ◌≡◌, refl, ◌∙◌, true, false,
  Dict, lookup, insert, ◌⊎◌, some, List, [], ◌∷◌, ◌++◌, lookup-insert,
}
use wavicle.Core.{Value, string, array, dict, const, Time}
use wavicle.Server.State.{
  Server, KeyType, list_key, set_key, stream_key, set_key_type, type_of_value,
}
use wavicle.Storage.Store.{Store}
use wavicle.Server.Values.{
  Runtime, given, as_array, of_items, of_entries, put_atom, put_value, require_type, read_as,
}
use wavicle.Server.Extended.Lists.{slice, push_command}
use wavicle.Server.Extended.Sets.{as_set, members, add_members, sadd_command}
use wavicle.Server.Extended.Streams.{parse_stream_id, with_fields, is_even, new_id, xadd_command}
use wavicle.Server.Extended.Pushed.{pushed}
use wavicle.Server.Extended.Typed.{
  IsMembers, set_values, pushed-type_of_value, stream-type_of_value, with_fields-lookup,
}

module _ {S : Type 0} (go : Runtime) (st : Store S) (now : Time) where
  -- the key may hold the type, and is then read as `found`, which leaves the server in t
  abbrev pub Finds :
      {A : Type 0}
      → KeyType
      → (Option Value → Option A)
      → Bytes
      → Server S
      → Server S
      → Option A
      → Type 0
  Finds want shape key s t found =
      (s1 : Server S) × (require_type st now key want s ≡ (s1, ok tt))
      × (read_as st now shape key s1 ≡ (t, ok found))

  -- a value of the type is appended to the store of t, and the index has this type for the key
  abbrev pub Puts : KeyType → Bytes → Server S → Server S → Type 0
  Puts want key t r =
      (v : Value) × (r.store ≡ (st.append_atom (const v) key [] 0 now t.store).0)
      × (lookup key r.key_types ≡ some want)
      × (type_of_value v ≡ want)

  indexed_as :
      (key : Bytes) (want : KeyType) (m : Dict Bytes KeyType)
      → lookup key (insert key want m) ≡ some want
  indexed_as key want m = lookup-insert key key want m ∙ rw (==_refl key) refl

  push_command-Puts :
      (cmd key e : Bytes) (es : List Bytes) (s t : Server S) (xs : Option (List Value))
      → Finds list_key as_array key s t xs
      → type_of_value (array (of_items (slice xs))) ≡ list_key
      → Puts list_key key t (push_command go st now cmd (key ∷ e ∷ es) s).0
  unfolding push_command put_value put_atom set_key_type
  push_command-Puts cmd key e es s t xs (s1, typed, read) h = (
    array (of_items (pushed cmd (e ∷ es) (slice xs))),
    rw (typed, read) refl,
    rw (typed, read) (indexed_as key list_key t.key_types),
    pushed-type_of_value cmd e es (slice xs) h,
  )

  sadd_command-Puts :
      (key e : Bytes) (es : List Bytes) (s t : Server S) (m : Option (Dict Bytes Value))
      → Finds set_key as_set key s t m
      → IsMembers (members m)
      → Puts set_key key t (sadd_command st now (key ∷ e ∷ es) s).0
  unfolding sadd_command put_value put_atom set_key_type
  sadd_command-Puts key e es s t m (s1, typed, read) h = (
    dict (of_entries (add_members (e ∷ es) (members m)).0),
    rw (typed, read) refl,
    rw (typed, read) (indexed_as key set_key t.key_types),
    set_values e es (members m) h,
  )

  xadd_command-Puts :
      (key text f val : Bytes) (more : List Bytes) (id : ℕ × ℕ) (s t : Server S)
      (xs : Option (List Value))
      → Finds stream_key as_array key s t xs
      → (slice xs ≡ []) ⊎ (type_of_value (array (of_items (slice xs))) ≡ stream_key)
      → (text == codes "*") ≡ false
      → parse_stream_id text ≡ some id
      → is_even more ≡ true
      → Puts stream_key key t (xadd_command go st now (key ∷ text ∷ f ∷ val ∷ more) s).0
  unfolding xadd_command new_id given put_value put_atom set_key_type lookup bytes_beq
  xadd_command-Puts key text f val more id s t xs (s1, typed, read) h plain parsed even =
      let m : Dict Bytes Value = with_fields (f ∷ val ∷ more) ((codes "_id", string text) ∷ []) in
      (
        array (of_items (slice xs ++ dict (of_entries m) ∷ [])),
        rw (even, typed, plain, parsed, read) refl,
        rw (even, typed, plain, parsed, read) (indexed_as key stream_key t.key_types),
        stream-type_of_value m (slice xs)
            (with_fields-lookup (f ∷ val ∷ more) (codes "_id") ((codes "_id", string text) ∷ [])
              refl)
            h,
      )

  -- What LPUSH, RPUSH, SADD and XADD put into the index is the type that keyTypeOf would infer from the
  -- value which they append: list for a push to a list, set for SADD to a set, whose values are all
  -- VInt(1), and stream for XADD, with an ID that parses, to a stream or to no entries. That is so
  -- when the key may hold the type, and is read as such a value or as none.
  pub type_of_value-index :
      (cmd key e text f val : Bytes) (es more : List Bytes) (id : ℕ × ℕ)
      (s1 t1 s2 t2 s3 t3 : Server S) (xs ys : Option (List Value)) (m : Option (Dict Bytes Value))
      → Finds list_key as_array key s1 t1 xs
      → type_of_value (array (of_items (slice xs))) ≡ list_key
      → Finds set_key as_set key s2 t2 m
      → IsMembers (members m)
      → Finds stream_key as_array key s3 t3 ys
      → (slice ys ≡ []) ⊎ (type_of_value (array (of_items (slice ys))) ≡ stream_key)
      → (text == codes "*") ≡ false
      → parse_stream_id text ≡ some id
      → is_even more ≡ true
      → Puts list_key key t1 (push_command go st now cmd (key ∷ e ∷ es) s1).0
        × Puts set_key key t2 (sadd_command st now (key ∷ e ∷ es) s2).0
        × Puts stream_key key t3 (xadd_command go st now (key ∷ text ∷ f ∷ val ∷ more) s3).0
  type_of_value-index cmd key e text f val es more id s1 t1 s2 t2 s3 t3 xs ys m list plain set ones
        stream entries star parsed even =
      (
        push_command-Puts cmd key e es s1 t1 xs list plain,
        sadd_command-Puts key e es s2 t2 m set ones,
        xadd_command-Puts key text f val more id s3 t3 ys stream entries star parsed even,
      )
