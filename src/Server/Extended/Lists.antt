-- ===== src/Server/Extended/Lists.antt =====
-- The list commands of HandleExtended, internal/protocol/resp3/extended.go. Slices are values here: what
-- an append writes into the array that an older slice shares is left out.
use wavicle.Prelude.{
  ℕ, ◌-◌, Bytes, codes, ltb, ◌==◌, nat_eq, bytes_eq, if◌then◌else◌, Option, none, some, List, [],
  ◌∷◌, ◌++◌, length, get_elem?, take, drop, reverse, atoi, ℤ, pos, negsuc,
}
use wavicle.Core.{Value, string, array, Time}
use wavicle.Storage.Store.{Store}
use wavicle.Server.State.{pure, raise, ◌>>=◌, ◌>>◌, set_key_type, list_key}
use wavicle.Server.Commands.{integer, nil_reply}
use wavicle.Server.Commands.Mass.{array_header}
use wavicle.Server.Values.{
  Runtime, Handler, above_zero, arity_reply, out_of_range, empty_array, digit_reply, given,
  as_array, of_items, element_reply, elements_reply, from_end, window, put_value, bury,
  require_type, read_as,
}

-- LPUSH puts each element in front of the one before it
unfoldable pub push_left : List Bytes → List Value → List Value
push_left [] xs = xs
push_left (e ∷ es) xs = push_left es (string e ∷ xs)

unfoldable pub push_right : List Bytes → List Value → List Value
push_right [] xs = xs
push_right (e ∷ es) xs = push_right es (xs ++ string e ∷ [])

-- what LPOP and RPOP take off a list, in the order of the pops, and what is left
unfoldable pub pop_left : ℕ → List Value → List Value × List Value
pop_left count xs = (take count xs, drop count xs)

unfoldable pub pop_right : ℕ → List Value → List Value × List Value
pop_right count xs = (reverse (drop (length xs - count) xs), take (length xs - count) xs)

-- a count that is cut to the length
abbrev pub capped : ℕ → ℕ → ℕ
capped count n = if ltb n count then n else count

-- one element by itself, several as an array
unfoldable pub popped_reply : Runtime → List Value → Bytes
unfolding element_reply elements_reply array_header
popped_reply go (v ∷ []) = element_reply go v
popped_reply go vs = array_header (length vs) ++ elements_reply go vs

-- the element of an index, from the end for a negative one
unfoldable pub element_at : List Value → ℤ → Option Value
unfolding from_end
element_at xs i = elim (from_end (length xs) i) [ pos k ↦ get_elem? xs k | negsuc k ↦ none ]

abbrev pub slice : {A : Type 0} → Option (List A) → List A
slice none = []
slice (some xs) = xs

-- the count of LPOP and RPOP
unfoldable pub pop_count : {S : Type 0} → List Bytes → Handler S ℕ
unfolding given above_zero
pop_count [] = pure 1
pop_count (text ∷ _) = given (atoi text) (raise out_of_range) (above_zero out_of_range)

-- the two indices of a range
unfoldable pub range_of : {S : Type 0} → Bytes → Bytes → Handler S (ℤ × ℤ)
unfolding given
range_of low high =
    given (atoi low) (raise out_of_range)
      (λ start. given (atoi high) (raise out_of_range) (λ stop. pure (start, stop)))

-- the rest of a list: an empty one is buried
unfoldable pub put_rest : {S : Type 0} → Store S → Time → Bytes → List Value → Handler S (Unit {0})
unfolding bury put_value of_items
put_rest st now key [] = bury st now key
put_rest st now key (v ∷ vs) = put_value st now key (array (of_items (v ∷ vs)))

module _ {S : Type 0} (go : Runtime) (st : Store S) (now : Time) where
  -- LPUSH and RPUSH
  unfoldable pub push_command : Bytes → List Bytes → Handler S Bytes
  unfolding require_type read_as put_value push_left push_right set_key_type of_items integer
  push_command cmd (key ∷ e ∷ es) = do
    require_type st now key list_key
    found ← read_as st now as_array key
    let xs : List Value =
        if cmd == codes "LPUSH"
        then push_left (e ∷ es) (slice found)
        else push_right (e ∷ es) (slice found)
    put_value st now key (array (of_items xs))
    set_key_type key list_key
    pure (integer (length xs))
  push_command cmd _ = raise arity_reply

  -- LPOP and RPOP
  unfoldable pub pop_command : Bytes → List Bytes → Handler S Bytes
  unfolding require_type pop_count read_as given pop_left pop_right put_rest popped_reply
  pop_command cmd [] = raise arity_reply
  pop_command cmd (key ∷ more) = do
    require_type st now key list_key
    count ← pop_count more
    found ← read_as st now as_array key
    given found (pure nil_reply) (λ xs.
        if length xs == 0
        then pure nil_reply
        else let taken =
            if cmd == codes "LPOP"
            then pop_left (capped count (length xs)) xs
            else pop_right (capped count (length xs)) xs in
          do put_rest st now key taken.1; pure (popped_reply go taken.0))

  -- LLEN
  unfoldable pub llen_command : List Bytes → Handler S Bytes
  unfolding read_as integer
  llen_command [] = raise arity_reply
  llen_command (key ∷ _) = do
    found ← read_as st now as_array key
    pure (elim found [ none ↦ digit_reply 0 | some xs ↦ integer (length xs) ])

  -- LRANGE
  unfoldable pub lrange_command : List Bytes → Handler S Bytes
  unfolding read_as given range_of window array_header elements_reply
  lrange_command (key ∷ low ∷ high ∷ _) = do
    found ← read_as st now as_array key
    given found (pure empty_array) (λ xs. do
      (start, stop) ← range_of low high
      given (window xs start stop) (pure empty_array)
          (λ ys. pure (array_header (length ys) ++ elements_reply go ys)))
  lrange_command _ = raise arity_reply

  -- LINDEX
  unfoldable pub lindex_command : List Bytes → Handler S Bytes
  unfolding read_as given element_at element_reply
  lindex_command (key ∷ index ∷ _) = do
    found ← read_as st now as_array key
    given found (pure nil_reply) (λ xs.
        given (atoi index) (raise out_of_range)
          (λ i. given (element_at xs i) (pure nil_reply) (λ v. pure (element_reply go v))))
  lindex_command _ = raise arity_reply
