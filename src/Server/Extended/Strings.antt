-- ===== src/Server/Extended/Strings.antt =====
-- The counters and the string commands of HandleExtended, internal/protocol/resp3/extended.go. `key` is
-- args[1] of the source, and a command's name is in capitals.
use wavicle.Prelude.{
  ℕ, ◌*◌, ◌%◌, ◌^◌, Bytes, codes, ◌==◌, ◌||◌, bytes_eq, if◌then◌else◌, Option, none, some, List, [],
  ◌∷◌, ◌++◌, length, show_int, atoi, trim_space, ℤ, pos, negsuc, signed, add64, neg64,
}
use wavicle.Core.{string, const, Time}
use wavicle.Storage.Store.{Store}
use wavicle.Server.State.{pure, raise, ◌>>=◌, ◌>>◌, set_key_type, string_key}
use wavicle.Server.Commands.{crlf, bulk_string, integer, ok_reply, nil_reply, duration, add_time}
use wavicle.Server.Values.{
  Runtime, Handler, above_zero, arity_reply, out_of_range, bad_expiry, int_reply, digit_reply,
  given, as_string, cur_value, put_atom, put_value, require_type, read_as,
}

abbrev pub not_integer : Bytes
not_integer = codes "ERR value is not an integer" ++ crlf

-- `time.Duration(ms) * time.Millisecond` on 64 bits, for a count above 0
unfoldable pub milliseconds : ℕ → ℤ
unfolding signed
milliseconds ms = signed (ms * 10 ^ 6 % 2 ^ 64)

-- the duration of SETEX, PSETEX and PEXPIRE, whose text must be an integer above 0
unfoldable pub positive : {S : Type 0} → Bytes → Handler S ℕ
unfolding given above_zero
positive text = given (atoi text) (raise bad_expiry) (above_zero bad_expiry)

-- what a counter command adds; DECRBY without an amount adds 1
unfoldable pub counter_delta : {S : Type 0} → Bytes → List Bytes → Handler S ℤ
unfolding given neg64
counter_delta cmd [] = pure (if cmd == codes "DECR" then negsuc 0 else pos 1)
counter_delta cmd (amount ∷ _) =
    if cmd == codes "INCRBY" || cmd == codes "DECRBY"
    then given (atoi amount) (raise not_integer)
        (λ d. pure (if cmd == codes "DECRBY" then neg64 d else d))
    else pure (if cmd == codes "DECR" then negsuc 0 else pos 1)

-- the number that a string holds; a missing one is 0
unfoldable pub counter_value : {S : Type 0} → Option Bytes → Handler S ℤ
unfolding given
counter_value found =
    given found (pure (pos 0))
      (λ text. given (atoi (trim_space text)) (raise out_of_range) (λ n. pure n))

module _ {S : Type 0} (go : Runtime) (st : Store S) (now : Time) where
  -- a string that replaces the value of a key
  unfoldable pub store_string : Bytes → Bytes → Handler S (Unit {0})
  unfolding put_value set_key_type
  store_string key text = do put_value st now key (string text); set_key_type key string_key

  -- INCR, DECR, INCRBY and DECRBY
  unfoldable pub counter_command : Bytes → List Bytes → Handler S Bytes
  unfolding counter_delta counter_value require_type read_as store_string
  counter_command cmd [] = raise arity_reply
  counter_command cmd (key ∷ more) = do
    delta ← counter_delta cmd more
    require_type st now key string_key
    found ← read_as st now (as_string go) key
    cur ← counter_value found
    store_string key (show_int (add64 cur delta))
    pure (int_reply (add64 cur delta))

  -- APPEND
  unfoldable pub append_command : List Bytes → Handler S Bytes
  unfolding require_type read_as store_string integer
  append_command (key ∷ tail ∷ _) = do
    require_type st now key string_key
    found ← read_as st now (as_string go) key
    let text : Bytes = elim found [ none ↦ tail | some s ↦ s ++ tail ]
    store_string key text
    pure (integer (length text))
  append_command _ = raise arity_reply

  -- STRLEN
  unfoldable pub strlen_command : List Bytes → Handler S Bytes
  unfolding read_as integer
  strlen_command [] = raise arity_reply
  strlen_command (key ∷ _) = do
    found ← read_as st now (as_string go) key
    pure (elim found [ none ↦ digit_reply 0 | some s ↦ integer (length s) ])

  -- GETSET; an old value that is no string is nil
  unfoldable pub getset_command : List Bytes → Handler S Bytes
  unfolding require_type cur_value given store_string
  getset_command (key ∷ val ∷ _) = do
    require_type st now key string_key
    found ← cur_value st now key
    store_string key val
    given found (pure nil_reply)
        (λ v. given (as_string go v) (pure nil_reply) (λ s. pure (bulk_string s)))
  getset_command _ = raise arity_reply

  -- SETNX, which asks for no type
  unfoldable pub setnx_command : List Bytes → Handler S Bytes
  unfolding cur_value given store_string
  setnx_command (key ∷ val ∷ _) = do
    found ← cur_value st now key
    given found (do store_string key val; pure (digit_reply 1)) (λ v. pure (digit_reply 0))
  setnx_command _ = raise arity_reply

  -- SETEX and PSETEX
  unfoldable pub setex_command : Bytes → List Bytes → Handler S Bytes
  unfolding positive put_atom set_key_type duration milliseconds add_time
  setex_command cmd (key ∷ amount ∷ val ∷ _) = do
    n ← positive amount
    put_atom st now key (const (string val))
        (add_time now (if cmd == codes "SETEX" then duration n else milliseconds n))
    set_key_type key string_key
    pure ok_reply
  setex_command cmd _ = raise arity_reply
