-- ===== src/Server/Extended/Pushed.antt =====
-- What LPUSH and RPUSH store, and LRANGE of it.
use wavicle.Prelude.{
  ℕ, suc, ◌+◌, ◌-◌, pos, negsuc, Bytes, codes, bytes_eq, ◌≡◌, refl, sym, ap, ◌∙◌, arith, ltb, leb,
  true, false, ◌==◌, if◌then◌else◌, Bool-cases, inl, inr, Option, some, List, [], ◌∷◌, ◌++◌, length,
  take, map, reverse, append_assoc, append-nil, length-append, atoi, ok,
}
use mathlib.Core.List.{map-append, reverse-cons}
use wavicle.Core.{Value, string, array, Values, const, Atom, Time}
use wavicle.Storage.Store.{Store}
use wavicle.Server.State.{Server, list_key, set_key_type, is_tombstone}
use wavicle.Server.Commands.{integer}
use wavicle.Server.Commands.Mass.{array_header}
use wavicle.Server.Values.{
  Runtime, items, of_items, as_array, constant, stored, given, cur_value, put_value, put_atom,
  read_as, require_type, window, range_start, range_stop, from_end, elements_reply,
}
use wavicle.Server.Extended.Lists.{
  slice, push_left, push_right, push_command, lrange_command, range_of,
}

pub items-of_items : (xs : List Value) → items (of_items xs) ≡ xs
unfolding items of_items
items-of_items [] = refl
items-of_items (x ∷ xs) = ap (λ ys. x ∷ ys) (items-of_items xs)

push_right_append : (es : List Bytes) (xs : List Value) → push_right es xs ≡ xs ++ map string es
unfolding push_right
push_right_append [] xs = sym (append-nil xs)
push_right_append (e ∷ es) xs = push_right_append es (xs ++ string e ∷ []) ∙ append_assoc xs _ _

push_left_append :
    (es : List Bytes) (xs : List Value) → push_left es xs ≡ map string (reverse es) ++ xs
unfolding push_left
push_left_append [] xs = refl
push_left_append (e ∷ es) xs =
    push_left_append es (string e ∷ xs)
    ∙ sym (append_assoc (map string (reverse es)) (string e ∷ []) xs)
    ∙ ap (λ l. l ++ xs) (sym (map-append string (reverse es) (e ∷ [])))
    ∙ ap (λ l. map string l ++ xs) (sym (reverse-cons e es))

-- what a push makes of a list
abbrev pub pushed : Bytes → List Bytes → List Value → List Value
pushed cmd es xs = if cmd == codes "LPUSH" then push_left es xs else push_right es xs

pushed_lists :
    (cmd : Bytes) (es : List Bytes) (xs : List Value)
    → pushed cmd es xs
      ≡ (if cmd == codes "LPUSH" then map string (reverse es) ++ xs else xs ++ map string es)
pushed_lists cmd es xs = rw (push_left_append es xs, push_right_append es xs) refl

length-push_left :
    (es : List Bytes) (xs : List Value) → length (push_left es xs) ≡ length xs + length es
unfolding push_left
length-push_left [] xs = omega arith
length-push_left (e ∷ es) xs = length-push_left es (string e ∷ xs) ∙ omega arith

length-push_right :
    (es : List Bytes) (xs : List Value) → length (push_right es xs) ≡ length xs + length es
unfolding push_right
length-push_right [] xs = omega arith
length-push_right (e ∷ es) xs =
    length-push_right es (xs ++ string e ∷ []) ∙ grind (arith, length-append xs (string e ∷ []))

pub length-pushed :
    (cmd : Bytes) (es : List Bytes) (xs : List Value)
    → length (pushed cmd es xs) ≡ length xs + length es
length-pushed cmd es xs = elim (Bool-cases (cmd == codes "LPUSH")) [
  | inl l ↦ rw l (length-push_left es xs)
  | inr r ↦ rw r (length-push_right es xs)
]

take_all : {A : Type 0} (xs : List A) → take (length xs) xs ≡ xs
take_all [] = refl
take_all (x ∷ xs) = ap (λ ys. x ∷ ys) (take_all xs)

range_stop_last : (n : ℕ) → range_stop (suc n) (negsuc 0) ≡ suc n
unfolding range_stop from_end
range_stop_last n =
    let whole : ltb 0 (suc n) ≡ true = ground arith in
    let last : leb (suc n) (suc n - 1) ≡ false = ground arith in
    let end : suc (suc n - 1) ≡ suc n = omega arith in rw (whole, range_stop, last, end) refl

window_all :
    {A : Type 0} (xs : List A) (n : ℕ) → length xs ≡ suc n → window xs (pos 0) (negsuc 0) ≡ some xs
unfolding window range_start from_end
window_all xs n e =
    let first : leb (suc n) 0 ≡ false = ground arith in
    let size : suc n - 0 ≡ suc n = omega arith in
    rw (e, first, range_stop_last n, window, first, size)
      (ap some (ap (λ k. take k xs) (sym e) ∙ take_all xs))

stored_array :
    (a : Atom) (vs : Values) → a.expr ≡ const (array vs) → stored (some a) ≡ some (some (array vs))
unfolding stored is_tombstone constant
stored_array a vs e = rw e refl

module _ {S : Type 0} (go : Runtime) (st : Store S) (now later : Time) where
  -- what a read of a list finds when the store has it
  pub read_as-array :
      (key : Bytes) (xs : List Value) (a : Atom) (s : Server S) (x : S)
      → st.get_current key later s.store ≡ (x, some a)
      → a.expr ≡ const (array (of_items xs))
      → read_as st later as_array key s ≡ (record s { store = x }, ok (some xs))
  unfolding read_as cur_value as_array given
  read_as-array key xs a s x h e = rw (h, stored_array a (of_items xs) e, items-of_items xs) refl

  whole_range : range_of {S = S} (codes "0") (codes "-1") ≡ λ s. (s, ok (pos 0, negsuc 0))
  unfolding range_of atoi given
  whole_range = refl

  push_command-reply :
      (cmd key e : Bytes) (es : List Bytes) (s s1 s2 : Server S) (found : Option (List Value))
      → require_type st now key list_key s ≡ (s1, ok tt)
      → read_as st now as_array key s1 ≡ (s2, ok found)
      → let ys = pushed cmd (e ∷ es) (slice found) in
        let r = push_command go st now cmd (key ∷ e ∷ es) s in
        (r.1 ≡ ok (integer (length ys)))
        × (r.0.store ≡ (st.append_atom (const (array (of_items ys))) key [] 0 now s2.store).0)
  unfolding push_command put_value put_atom set_key_type
  push_command-reply cmd key e es s s1 s2 found typed read = rw (typed, read) (refl, refl)

  -- If the key may hold a list and the list is read, LPUSH and RPUSH reply with its new length, which
  -- counts the new elements in; and if the store then has the atom that was appended, LRANGE from 0
  -- to -1 replies with the old elements and the new ones: those of LPUSH in front, the last one first,
  -- those of RPUSH behind, in their order.
  pub push_command-lrange_command :
      (cmd key e : Bytes) (es : List Bytes) (s s1 s2 : Server S) (found : Option (List Value))
      (a : Atom) (x : S)
      → require_type st now key list_key s ≡ (s1, ok tt)
      → read_as st now as_array key s1 ≡ (s2, ok found)
      → let ys =
          (if cmd == codes "LPUSH"
            then map string (reverse (e ∷ es)) ++ slice found
            else slice found ++ map string (e ∷ es)) in
        st.get_current key later
            (st.append_atom (const (array (of_items ys))) key [] 0 now s2.store).0
          ≡ (x, some a)
        → a.expr ≡ const (array (of_items ys))
        → let r = push_command go st now cmd (key ∷ e ∷ es) s in
          (r.1 ≡ ok (integer (length ys)))
          × (length ys ≡ length (slice found) + length (e ∷ es))
          × ((lrange_command go st later (key ∷ codes "0" ∷ codes "-1" ∷ []) r.0).1
              ≡ ok (array_header (length ys) ++ elements_reply go ys))
  unfolding lrange_command given
  push_command-lrange_command cmd key e es s s1 s2 found a x typed read current written =
      let ys = pushed cmd (e ∷ es) (slice found) in
      let same = pushed_lists cmd (e ∷ es) (slice found) in
      let (reply, left) = push_command-reply cmd key e es s s1 s2 found typed read in
      let long = length-pushed cmd (e ∷ es) (slice found) in
      let kept =
        read_as-array key ys a (push_command go st now cmd (key ∷ e ∷ es) s).0 x
          (rw (left, same) current) (rw same written) in
      let size : length ys ≡ suc (length (slice found) + length es) = ground (arith, long) in
      rw (sym same) (
        reply,
        long,
        rw (kept, whole_range, window_all ys (length (slice found) + length es) size) refl,
      )
