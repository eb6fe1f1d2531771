-- ===== src/Server/Steps/Values.antt =====
-- The steps of what the commands share: looks at keys, writes and the index of types.
use wavicle.Prelude.{
  if_cases, ◌++◌, codes, Bytes, Bool, true, refl, Option, none, some, List, [], ◌∷◌, Outcome, Dict,
}
use wavicle.Core.{Time, Expr, Value, Atom}
use wavicle.Storage.Store.{Store}
use wavicle.Server.State.{
  Server, has_child, hash_key, CommandError, KeyType, set_key_type, del_key_type, remember, current,
  visible, untombed, infer_from, indexed, key_type_of, check_type, assert_key_type,
}
use wavicle.Server.Values.{
  cur_value, found_atom, put_atom, put_value, bury, read_as, require_type, require_known,
  known_type, put_map,
}
use wavicle.Server.Steps.{Steps, Takes, steps, here, looked, written}
use wavicle.Server.Extended.Lists.{put_rest}

module _ {S : Type 0} {st : Store S} {now : Time} {w : Bool} where
  -- looks
  pub cur_value-Takes : (path : Bytes) → Takes st now w (cur_value st now path)
  unfolding cur_value
  cur_value-Takes path = record { from = λ s. looked here path }

  pub found_atom-Takes : (path : Bytes) → Takes st now w (found_atom st now path)
  unfolding found_atom
  found_atom-Takes path = record { from = λ s. looked here path }

  pub read_as-Takes :
      {A : Type 0} (shape : Option Value → Option A) (path : Bytes)
      → Takes st now w (read_as st now shape path)
  unfolding read_as
  read_as-Takes shape path = search (steps, cur_value-Takes)

module _ {S : Type 0} {st : Store S} {now : Time} where
  -- writes
  pub put_atom-Takes :
      (path : Bytes) (e : Expr) (t : Time) → Takes st now true (put_atom st now path e t)
  unfolding put_atom
  put_atom-Takes path e t = record { from = λ s. written here refl e path [] t }

  pub put_value-Takes : (path : Bytes) (v : Value) → Takes st now true (put_value st now path v)
  unfolding put_value
  put_value-Takes path v = put_atom-Takes path _ 0

  pub set_key_type-Takes :
      {E : Type 0} (key : Bytes) (t : KeyType) → Takes {E = E} st now true (set_key_type key t)
  unfolding set_key_type
  set_key_type-Takes key t = record { from = λ s. Steps.indexed here refl _ }

  pub del_key_type-Takes : {E : Type 0} (key : Bytes) → Takes {E = E} st now true (del_key_type key)
  unfolding del_key_type
  del_key_type-Takes key = record { from = λ s. Steps.indexed here refl _ }

  pub current-Takes : (path : Bytes) → Takes st now true (current st now path)
  unfolding current
  current-Takes path = record { from = λ s. looked here path }

  pub untombed-Takes : (o : Option Atom) → Takes st now true (untombed st now o)
  untombed-Takes none = search steps
  untombed-Takes (some a) = search steps

  pub visible-Takes : (path : Bytes) → Takes st now true (visible st now path)
  unfolding visible
  visible-Takes path = search (steps, current-Takes, untombed-Takes)

  pub remember-Takes : (key : Bytes) (t : KeyType) → Takes st now true (remember st now key t)
  unfolding remember
  remember-Takes key t = search (steps, set_key_type-Takes)

  pub infer_from-Takes :
      (key : Bytes) (o : Option Atom) → Takes st now true (infer_from st now key o)
  unfolding infer_from
  infer_from-Takes key none = record {
    from = λ s.
        if_cases (λ (r : Server S × Outcome CommandError (Option KeyType)). Steps st now true s r.0)
          (has_child (key ++ codes ":") (st.frontier_paths now s.store)) _ _
          ((remember-Takes key hash_key).from s) here;
  }
  infer_from-Takes key (some a) = record { from = λ s. (remember-Takes key _).from s }

  pub indexed-Takes : (key : Bytes) (o : Option KeyType) → Takes st now true (indexed st now key o)
  unfolding indexed
  indexed-Takes key none = search (steps, visible-Takes, infer_from-Takes)
  indexed-Takes key (some t) = search steps

  pub key_type_of-Takes : (key : Bytes) → Takes st now true (key_type_of st now key)
  unfolding key_type_of
  key_type_of-Takes key = record { from = λ s. (indexed-Takes key _).from s }

  pub check_type-Takes :
      (want : KeyType) (o : Option KeyType) → Takes st now true (check_type st now want o)
  check_type-Takes want none = search steps
  check_type-Takes want (some t) = search steps

  pub assert_key_type-Takes :
      (key : Bytes) (want : KeyType) → Takes st now true (assert_key_type st now key want)
  unfolding assert_key_type
  assert_key_type-Takes key want = search (steps, key_type_of-Takes, check_type-Takes)

  pub put_rest-Takes : (key : Bytes) (vs : List Value) → Takes st now true (put_rest st now key vs)
  unfolding put_rest bury
  put_rest-Takes key [] = search (steps, put_value-Takes, del_key_type-Takes)
  put_rest-Takes key (v ∷ vs) = search (steps, put_value-Takes)

  pub require_type-Takes :
      (key : Bytes) (want : KeyType) → Takes st now true (require_type st now key want)
  unfolding require_type
  require_type-Takes key want = search (steps, assert_key_type-Takes)

  pub known_type-Takes : (key : Bytes) → Takes st now true (known_type st now key)
  unfolding known_type
  known_type-Takes key = search (steps, key_type_of-Takes)

  pub require_known-Takes :
      (key : Bytes) (want : KeyType) → Takes st now true (require_known st now key want)
  unfolding require_known
  require_known-Takes key want = search (steps, assert_key_type-Takes, known_type-Takes)

  pub put_map-Takes :
      (key : Bytes) (m : Dict Bytes Value) → Takes st now true (put_map st now key m)
  unfolding put_map bury
  put_map-Takes key [] = search (steps, put_value-Takes, del_key_type-Takes)
  put_map-Takes key (e ∷ m) = search (steps, put_value-Takes)

pub ruleset looks = (cur_value-Takes, found_atom-Takes, read_as-Takes)

pub ruleset writes = (
  put_atom-Takes, put_value-Takes, set_key_type-Takes, del_key_type-Takes, require_type-Takes,
  known_type-Takes, require_known-Takes, put_map-Takes, put_rest-Takes,
)
