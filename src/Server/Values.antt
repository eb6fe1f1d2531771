-- ===== src/Server/Values.antt =====
-- internal/protocol/resp3/extended.go: the values of keys, and what the commands there share. A handler
-- of HandleExtended gives its reply in either way: an early return is the error of an Action.
use wavicle.Prelude.{
  Dict, lookup, delete, is_some, bytes_eq, ℕ, suc, ◌+◌, ◌-◌, Bytes, codes, Bool, ltb, leb,
  if◌then◌else◌, Option, none, some, List, [], ◌∷◌, ◌++◌, length, take, drop, show_int, ℤ, pos,
  negsuc, signed, Outcome, ok, err,
}
use wavicle.Core.{
  Value, null, bool, int, float, string, array, Values, nil, cons, dict, Fields, end, field,
  str_less, Expr, const, Atom, Time,
}
use wavicle.Storage.Store.{Store}
use wavicle.Server.State.{
  Server, Server, KeyType, Action, pure, raise, ◌>>=◌, ◌>>◌, del_key_type, is_tombstone,
  assert_key_type, key_type_of,
}
use wavicle.Server.Commands.{crlf, bulk_string}
use wavicle.Server.Commands.Mass.{array_header}

-- What HandleExtended takes from elsewhere: FormatFloat(x, 'f', -1, 64), ParseFloat, `<` and `==` on
-- float64s, which are given by their bits, and fmt.Sprint of a value.
pub record Runtime : Type 0 where
  pub shortest : ℕ → Bytes
  pub parse_float : Bytes → Option ℕ
  pub float_less : ℕ → ℕ → Bool
  pub float_same : ℕ → ℕ → Bool
  pub sprint : Value → Bytes

abbrev pub Handler : Type 0 → Type 0 → Type 0
Handler S A = Action S Bytes A

abbrev pub wrong_type_reply : Bytes
wrong_type_reply =
    codes "-ERR WRONGTYPE Operation against a key holding the wrong kind of value" ++ crlf

abbrev pub arity_reply : Bytes
arity_reply = codes "ERR wrong number of arguments" ++ crlf

abbrev pub out_of_range : Bytes
out_of_range = codes "ERR value is not an integer or out of range" ++ crlf

abbrev pub bad_expiry : Bytes
bad_expiry = codes "ERR invalid expire time" ++ crlf

abbrev pub empty_array : Bytes
empty_array = codes "*0" ++ crlf

-- `:%d` of an int
unfoldable pub int_reply : ℤ → Bytes
int_reply n = b':' ∷ show_int n ++ crlf

-- an integer reply of one digit
abbrev pub digit_reply : ℕ → Bytes
digit_reply d = b':' ∷ (48 + d) ∷ crlf

-- the value of an EConst, or nil
unfoldable pub constant : Expr → Option Value
constant (const v) = some v
constant _ = none

-- what curValue makes of an atom: nothing for none and for a tombstone
unfoldable pub stored : Option Atom → Option (Option Value)
unfolding is_tombstone constant
stored none = none
stored (some a) = if is_tombstone a then none else some (constant a.expr)

-- a VArray as a slice
unfoldable pub items : Values → List Value
items nil = []
items (cons v vs) = v ∷ items vs

unfoldable pub of_items : List Value → Values
of_items [] = nil
of_items (v ∷ vs) = cons v (of_items vs)

-- `v.(core.VArray)`
unfoldable pub as_array : Option Value → Option (List Value)
unfolding items
as_array (some (array vs)) = some (items vs)
as_array _ = none

-- a branch on an optional value
unfoldable pub given :
    {S E A B : Type 0} → Option A → Action S E B → (A → Action S E B) → Action S E B
given none m f = m
given (some a) m f = f a

-- a count that must be above 0
unfoldable pub above_zero : {S : Type 0} → Bytes → ℤ → Handler S ℕ
above_zero bad (pos (suc k)) = pure (suc k)
above_zero bad _ = raise bad

abbrev pub recovered :
    {S E F A : Type 0} → (E → Action S F A) → Server S → Outcome E A → Server S × Outcome F A
recovered f s (err e) = f e s
recovered f s (ok a) = (s, ok a)

-- an action whose error is dealt with
unfoldable pub recover : {S E F A : Type 0} → Action S E A → (E → Action S F A) → Action S F A
recover m f s = recovered f (m s).0 (m s).1

module _ (go : Runtime) where
  -- toString
  unfoldable pub to_string : Value → Option Bytes
  unfolding signed
  to_string (string s) = some s
  to_string (int n) = some (show_int (signed n))
  to_string (float x) = some (go.shortest x)
  to_string (bool b) = some (if b then codes "1" else codes "0")
  to_string _ = none

  -- toString of what curValue returns
  unfoldable pub as_string : Option Value → Option Bytes
  unfolding to_string
  as_string none = none
  as_string (some v) = to_string v

  -- an element as a bulk string: toString, or else fmt.Sprint
  unfoldable pub element_reply : Value → Bytes
  unfolding to_string bulk_string
  element_reply v = elim (to_string v) [ none ↦ bulk_string (go.sprint v) | some s ↦ bulk_string s ]

  -- an array of elements
  unfoldable pub elements_reply : List Value → Bytes
  unfolding element_reply
  elements_reply [] = []
  elements_reply (v ∷ vs) = element_reply v ++ elements_reply vs

-- an array of bulk strings, less its header
unfoldable pub bulk_strings : List Bytes → Bytes
unfolding bulk_string
bulk_strings [] = []
bulk_strings (s ∷ ss) = bulk_string s ++ bulk_strings ss

-- the array of the strings
unfoldable pub array_of : List Bytes → Bytes
unfolding bulk_strings array_header
array_of ss = array_header (length ss) ++ bulk_strings ss

-- an index that counts from the end if it is negative: `n + i` for a slice of n elements
unfoldable pub from_end : ℕ → ℤ → ℤ
from_end n (pos i) = pos i
from_end n (negsuc i) = if ltb i n then pos (n - suc i) else negsuc (i - n)

-- the start of a range, not below 0
unfoldable pub range_start : ℕ → ℤ → ℕ
unfolding from_end
range_start n i = elim (from_end n i) [ pos k ↦ k | negsuc k ↦ 0 ]

-- the end of a range behind its last element, `stop + 1`; 0 for a stop below 0
unfoldable pub range_stop : ℕ → ℤ → ℕ
unfolding from_end
range_stop n i = elim (from_end n i) [ pos k ↦ if leb n k then n else suc k | negsuc k ↦ 0 ]

-- the slice of LRANGE and ZRANGE; none for a start behind the stop or the end
unfoldable pub window : {A : Type 0} → List A → ℤ → ℤ → Option (List A)
unfolding range_start range_stop
window xs start stop =
    let low = range_start (length xs) start in
    let high = range_stop (length xs) stop in
    if leb (length xs) low
    then none
    else if leb high low
    then none
    else some (take (high - low) (drop low xs))

module _ {S : Type 0} (st : Store S) (now : Time) where
  -- curValue: none for a key that is missing, and `some none` for an expression that is no constant
  unfoldable pub cur_value : Bytes → Handler S (Option (Option Value))
  unfolding stored
  cur_value path s =
      let r = st.get_current path now s.store in (record s { store = r.0 }, ok (stored r.1))

  -- GetCurrent
  unfoldable pub found_atom : Bytes → Handler S (Option Atom)
  found_atom path s = let r = st.get_current path now s.store in (record s { store = r.0 }, ok r.1)

  -- AppendAtom without parents, whose error no caller looks at
  unfoldable pub put_atom : Bytes → Expr → Time → Handler S (Unit {0})
  put_atom path expr expires_at s =
      let r = st.append_atom expr path [] expires_at now s.store in
      (record s { store = r.0 }, ok tt)

  -- putValue
  unfoldable pub put_value : Bytes → Value → Handler S (Unit {0})
  unfolding put_atom
  put_value path v = put_atom path (const v) 0

  -- a key that is written with a tombstone and leaves the index
  unfoldable pub bury : Bytes → Handler S (Unit {0})
  unfolding put_value del_key_type
  bury key = do put_value key null; del_key_type key

  -- assertKeyType, whose error is the reply wrongType
  unfoldable pub require_type : Bytes → KeyType → Handler S (Unit {0})
  unfolding assert_key_type recover
  require_type key want = recover (assert_key_type st now key want) (λ e. raise wrong_type_reply)

  -- the value of a key in one of the shapes; the reply wrongType if it has another
  unfoldable pub read_as : {A : Type 0} → (Option Value → Option A) → Bytes → Handler S (Option A)
  read_as shape path = do
    found ← cur_value path
    given found (pure none) (λ v. given (shape v) (raise wrong_type_reply) (λ a. pure (some a)))

-- a VRecord as a map, and back
unfoldable pub entries : Fields → Dict Bytes Value
entries end = []
entries (field k v fs) = (k, v) ∷ entries fs

unfoldable pub of_entries : Dict Bytes Value → Fields
of_entries [] = end
of_entries ((k, v) ∷ m) = field k v (of_entries m)

-- sort.Strings
unfoldable pub put_string : Bytes → List Bytes → List Bytes
unfolding str_less
put_string s [] = s ∷ []
put_string s (t ∷ ts) = let rest = put_string s ts in if str_less t s then t ∷ rest else s ∷ t ∷ ts

unfoldable pub sort_strings : List Bytes → List Bytes
unfolding put_string
sort_strings [] = []
sort_strings (s ∷ ss) = put_string s (sort_strings ss)

-- the loop of SREM and ZREM: what is left of the map, and how many members it has deleted
unfoldable pub remove_members : List Bytes → Dict Bytes Value → Dict Bytes Value × ℕ
unfolding lookup delete
remove_members [] m = (m, 0)
remove_members (k ∷ ks) m =
    let (m', n) = remove_members ks (delete k m) in (m', if is_some (lookup k m) then suc n else n)

-- a map that is written back: an empty one is buried
unfoldable pub put_map :
    {S : Type 0} → Store S → Time → Bytes → Dict Bytes Value → Handler S (Unit {0})
unfolding bury put_value of_entries
put_map st now key [] = bury st now key
put_map st now key (e ∷ m) = put_value st now key (dict (of_entries (e ∷ m)))

-- keyTypeOf, which has no error
unfoldable pub known_type : {S : Type 0} → Store S → Time → Bytes → Handler S (Option KeyType)
unfolding key_type_of recover
known_type st now key = recover (key_type_of st now key) (λ e. pure none)

-- assertKeyType in ZADD and HMSET: its error counts if keyTypeOf is not "none"
unfoldable pub require_known :
    {S : Type 0} → Store S → Time → Bytes → KeyType → Handler S (Unit {0})
unfolding assert_key_type known_type recover
require_known st now key want =
    recover (assert_key_type st now key want)
      (λ e. do t ← known_type st now key; given t (pure tt) (λ u. raise wrong_type_reply))
