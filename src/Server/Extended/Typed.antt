-- ===== src/Server/Extended/Typed.antt =====
-- The types that keyTypeOf infers from the values that the commands write.
use wavicle.Prelude.{
  ℕ, suc, Bytes, codes, bytes_eq, ◌==◌, ◌≡◌, refl, sym, ap, ◌∙◌, arith, true, Bool-cases, Dict,
  lookup, insert, delete, is_some, ◌⊎◌, some, inl, inr, if◌then◌else◌, List, [], ◌∷◌, ◌++◌, length,
  lookup-insert,
}
use wavicle.Core.{Value, null, bool, int, float, string, bytes, array, dict, Values, cons}
use wavicle.Engine.Combinators.{lookup_field}
use wavicle.Server.State.{
  KeyType, list_key, set_key, stream_key, is_set_record, is_zset_record, type_of_value,
}
use wavicle.Server.Values.{of_items, of_entries}
use wavicle.Server.Extended.Lists.{push_left, push_right}
use wavicle.Server.Extended.Sets.{add_members}
use wavicle.Server.Extended.Streams.{with_fields}
use wavicle.Server.Extended.Pushed.{pushed}

-- a map whose values are all VInt(1)
abbrev pub IsMembers : Dict Bytes Value → Type 0
IsMembers [] = Unit
IsMembers ((k, v) ∷ m) = (v ≡ int 1) × IsMembers m

delete-IsMembers : (k : Bytes) (m : Dict Bytes Value) → IsMembers m → IsMembers (delete k m)
unfolding delete
delete-IsMembers k [] h = tt
delete-IsMembers k ((j, v) ∷ m) (e, h) = elim (Bool-cases (j == k)) [
  | inl y ↦ rw y (delete-IsMembers k m h)
  | inr n ↦ rw n (e, delete-IsMembers k m h)
]

add_members-IsMembers :
    (ks : List Bytes) (m : Dict Bytes Value) → IsMembers m → IsMembers (add_members ks m).0
unfolding add_members insert
add_members-IsMembers [] m h = h
add_members-IsMembers (k ∷ ks) m h =
    add_members-IsMembers ks (insert k (int 1) m) (refl, delete-IsMembers k m h)

is_set_record-IsMembers : (m : Dict Bytes Value) → IsMembers m → is_set_record (of_entries m) ≡ true
unfolding is_set_record of_entries
is_set_record-IsMembers [] h = refl
is_set_record-IsMembers ((k, v) ∷ m) (e, h) = rw e (is_set_record-IsMembers m h)

set-type_of_value :
    (m : Dict Bytes Value) (n : ℕ)
    → IsMembers m
    → length m ≡ suc n
    → type_of_value (dict (of_entries m)) ≡ set_key
unfolding type_of_value of_entries is_zset_record is_set_record
set-type_of_value [] n h e = absurd (ground (arith, e))
set-type_of_value ((k, v) ∷ m) n (i, h) e = rw (i, is_set_record-IsMembers m h) refl

-- the added members are there
add_members-suc :
    (ks : List Bytes) (m : Dict Bytes Value) (n : ℕ)
    → length m ≡ suc n
    → (k : ℕ) × (length (add_members ks m).0 ≡ suc k)
unfolding add_members insert
add_members-suc [] m n e = (n, e)
add_members-suc (k ∷ ks) m n e = add_members-suc ks (insert k (int 1) m) _ refl

-- the type of an array is its first element's
same_head :
    (v : Value) (vs ws : Values)
    → type_of_value (array (cons v vs)) ≡ type_of_value (array (cons v ws))
unfolding type_of_value
same_head (dict fs) vs ws = refl
same_head null vs ws = refl
same_head (bool b) vs ws = refl
same_head (int n) vs ws = refl
same_head (float x) vs ws = refl
same_head (string s) vs ws = refl
same_head (bytes s) vs ws = refl
same_head (array us) vs ws = refl

abbrev type_of_list : List Value → KeyType
type_of_list xs = type_of_value (array (of_items xs))

append-type_of_value :
    (v : Value) (xs ys : List Value) → type_of_list (v ∷ xs) ≡ type_of_list ((v ∷ xs) ++ ys)
unfolding of_items
append-type_of_value v xs ys = same_head v (of_items xs) (of_items (xs ++ ys))

push_left-type_of_value :
    (es : List Bytes) (s : Bytes) (xs : List Value)
    → type_of_list (push_left es (string s ∷ xs)) ≡ list_key
unfolding push_left type_of_value of_items
push_left-type_of_value [] s xs = refl
push_left-type_of_value (e ∷ es) s xs = push_left-type_of_value es e (string s ∷ xs)

one_more :
    (e : Bytes) (xs : List Value)
    → type_of_list xs ≡ list_key
    → type_of_list (xs ++ string e ∷ []) ≡ list_key
unfolding type_of_value of_items
one_more e [] h = refl
one_more e (x ∷ xs) h = sym (append-type_of_value x xs (string e ∷ [])) ∙ h

push_right-type_of_value :
    (es : List Bytes) (xs : List Value)
    → type_of_list xs ≡ list_key
    → type_of_list (push_right es xs) ≡ list_key
unfolding push_right
push_right-type_of_value [] xs h = h
push_right-type_of_value (e ∷ es) xs h =
    push_right-type_of_value es (xs ++ string e ∷ []) (one_more e xs h)

pub pushed-type_of_value :
    (cmd e : Bytes) (es : List Bytes) (xs : List Value)
    → type_of_list xs ≡ list_key
    → type_of_list (pushed cmd (e ∷ es) xs) ≡ list_key
unfolding push_left
pushed-type_of_value cmd e es xs h = elim (Bool-cases (cmd == codes "LPUSH")) [
  | inl l ↦ rw l (push_left-type_of_value es e xs)
  | inr r ↦ rw r (push_right-type_of_value (e ∷ es) xs h)
]

lookup_field-of_entries :
    (k : Bytes) (m : Dict Bytes Value) → lookup_field k (of_entries m) ≡ lookup k m
unfolding lookup_field of_entries lookup
lookup_field-of_entries k [] = refl
lookup_field-of_entries k ((j, v) ∷ m) =
    ap (λ r. if j == k then some v else r) (lookup_field-of_entries k m)

pub with_fields-lookup :
    (args : List Bytes) (k : Bytes) (m : Dict Bytes Value)
    → is_some (lookup k m) ≡ true
    → is_some (lookup k (with_fields args m)) ≡ true
unfolding with_fields
with_fields-lookup [] k m h = h
with_fields-lookup (f ∷ []) k m h = h
with_fields-lookup (f ∷ val ∷ more) k m h =
    with_fields-lookup more k (insert f (string val) m)
      (grind (arith, lookup-insert f k (string val) m))

pub stream-type_of_value :
    (m : Dict Bytes Value) (xs : List Value)
    → is_some (lookup (codes "_id") m) ≡ true
    → (xs ≡ []) ⊎ (type_of_list xs ≡ stream_key)
    → type_of_list (xs ++ dict (of_entries m) ∷ []) ≡ stream_key
unfolding type_of_value of_items
stream-type_of_value m [] id (inl e) = rw (lookup_field-of_entries (codes "_id") m, id) refl
stream-type_of_value m [] id (inr e) = rw (lookup_field-of_entries (codes "_id") m, id) refl
stream-type_of_value m (x ∷ xs) id (inl e) = absurd (ground (arith, e))
stream-type_of_value m (x ∷ xs) id (inr e) =
    sym (append-type_of_value x xs (dict (of_entries m) ∷ [])) ∙ e

pub set_values :
    (e : Bytes) (es : List Bytes) (m : Dict Bytes Value)
    → IsMembers m
    → type_of_value (dict (of_entries (add_members (e ∷ es) m).0)) ≡ set_key
unfolding add_members insert
set_values e es m h =
    let (n, size) = add_members-suc es (insert e (int 1) m) _ refl in
    set-type_of_value (add_members (e ∷ es) m).0 n (add_members-IsMembers (e ∷ es) m h) size
