-- ===== src/Server/Steps/Writes.antt =====
-- The extended commands that write.
use wavicle.Prelude.{
  has_prefix, Bytes, ℕ, ℤ, zero, suc, pos, negsuc, Dict, true, refl, Option, List, [], ◌∷◌,
  bytes_eq,
}
use wavicle.Core.{Time, Value, null}
use wavicle.Storage.Store.{Store}
use wavicle.Server.Commands.Mass.{field_path}
use wavicle.Server.Values.{Runtime, arity_reply, above_zero}
use wavicle.Server.Steps.{
  Steps, Takes, Takes-bind, Takes-pure, Takes-raise, Takes-given, Takes-if, steps,
}
use wavicle.Server.Steps.Values.{looks, writes, cur_value-Takes, found_atom-Takes, put_value-Takes}
use wavicle.Server.Extended.Strings.{
  counter_command, append_command, getset_command, setnx_command, setex_command, counter_delta,
  counter_value, store_string, positive,
}
use wavicle.Server.Extended.Lists.{push_command, pop_command, pop_count}
use wavicle.Server.Extended.Sets.{sadd_command, srem_command}
use wavicle.Server.Extended.SortedSets.{zadd_command, zrem_command, add_scores}
use wavicle.Server.Extended.Hashes.{
  hmset_command, hdel_command, put_fields, bury_fields, any_left, drop_unless, unless_left,
  drop_empty,
}
use wavicle.Server.Extended.Streams.{xadd_command, new_id}
use wavicle.Server.Extended.Keys.{pexpire_command, persist_command, bury_all, flush_command}
use wavicle.Server.Steps.Reads.{visible_atom-Takes}

module _ {S : Type 0} {st : Store S} {now : Time} where
  counter_delta-Takes :
      (cmd : Bytes) (args : List Bytes) → Takes st now true (counter_delta cmd args)
  unfolding counter_delta
  counter_delta-Takes cmd [] = search steps
  counter_delta-Takes cmd (amount ∷ args) = search steps depth 12

  counter_value-Takes : (found : Option Bytes) → Takes st now true (counter_value found)
  unfolding counter_value
  counter_value-Takes found = search steps depth 12

  store_string-Takes :
      (go : Runtime) (key text : Bytes) → Takes st now true (store_string go st now key text)
  unfolding store_string
  store_string-Takes go key text = search (steps, writes)

  counted-Takes : (bad : Bytes) (n : ℤ) → Takes st now true (above_zero bad n)
  unfolding above_zero
  counted-Takes bad (pos zero) = search steps
  counted-Takes bad (pos (suc n)) = search steps
  counted-Takes bad (negsuc n) = search steps

  positive-Takes : (text : Bytes) → Takes st now true (positive text)
  unfolding positive
  positive-Takes text = search (steps, counted-Takes) depth 12

  pop_count-Takes : (args : List Bytes) → Takes st now true (pop_count args)
  unfolding pop_count
  pop_count-Takes [] = search steps
  pop_count-Takes (text ∷ args) = search (steps, counted-Takes) depth 12

  add_scores-Takes :
      (go : Runtime) (args : List Bytes) (m : Dict Bytes Value) (n : ℕ)
      → Takes st now true (add_scores go st now args m n)
  unfolding add_scores
  add_scores-Takes go [] m n = search steps
  add_scores-Takes go (text ∷ []) m n = search steps
  add_scores-Takes go (text ∷ k ∷ more) m n =
      Takes-given _ _ _ (Takes-raise _) (λ x. add_scores-Takes go more _ _)

  put_fields-Takes :
      (go : Runtime) (key : Bytes) (args : List Bytes)
      → Takes st now true (put_fields go st now key args)
  unfolding put_fields
  put_fields-Takes go key [] = search steps
  put_fields-Takes go key (f ∷ []) = search steps
  put_fields-Takes go key (f ∷ val ∷ more) =
      Takes-bind _ _ (put_value-Takes _ _) (λ u. put_fields-Takes go key more)

  bury_fields-Takes :
      (go : Runtime) (key : Bytes) (fs : List Bytes)
      → Takes st now true (bury_fields go st now key fs)
  unfolding bury_fields
  bury_fields-Takes go key [] = search steps
  bury_fields-Takes go key (f ∷ fs) = Takes-bind _ _ (found_atom-Takes _) (λ found.
      Takes-given found _ _ (bury_fields-Takes go key fs) (λ a.
        Takes-bind _ _ (put_value-Takes (field_path key f) null)
          (λ u. Takes-bind _ _ (bury_fields-Takes go key fs) (λ n. Takes-pure (suc n)))))

  any_left-Takes :
      (go : Runtime) (key : Bytes) (fs : List Bytes) → Takes st now true (any_left go st now key fs)
  unfolding any_left
  any_left-Takes go key [] = search steps
  any_left-Takes go key (f ∷ fs) =
      Takes-if (has_prefix f key) _ _
        (Takes-bind _ _ (cur_value-Takes _)
          (λ found. Takes-given found _ _ (any_left-Takes go key fs) (λ v. Takes-pure true)))
        (any_left-Takes go key fs)

  drop_unless-Takes :
      (go : Runtime) (key : Bytes) (paths : List Bytes)
      → Takes st now true (drop_unless go st now key paths)
  unfolding drop_unless
  drop_unless-Takes go key paths = search (steps, writes, any_left-Takes) depth 12

  unless_left-Takes : (go : Runtime) (key : Bytes) → Takes st now true (unless_left go st now key)
  unfolding unless_left
  unless_left-Takes go key = record {
    from = λ s. (drop_unless-Takes go key (st.frontier_paths now s.store)).from s;
  }

  drop_empty-Takes : (go : Runtime) (key : Bytes) → Takes st now true (drop_empty go st now key)
  unfolding drop_empty
  drop_empty-Takes go key = search (steps, writes, unless_left-Takes) depth 12

  new_id-Takes : (go : Runtime) (id : Bytes) → Takes st now true (new_id go st now id)
  unfolding new_id
  new_id-Takes go id = search steps depth 12

  pub counter_command-Takes :
      (go : Runtime) (cmd : Bytes) (args : List Bytes)
      → Takes st now true (counter_command go st now cmd args)
  unfolding counter_command
  counter_command-Takes go cmd [] = Takes-raise arity_reply
  counter_command-Takes go cmd (key ∷ args) =
      search (steps, looks, writes, counter_delta-Takes, counter_value-Takes, store_string-Takes)
        depth 12

  pub append_command-Takes :
      (go : Runtime) (args : List Bytes) → Takes st now true (append_command go st now args)
  unfolding append_command
  append_command-Takes go [] = Takes-raise arity_reply
  append_command-Takes go (key ∷ []) = Takes-raise arity_reply
  append_command-Takes go (key ∷ tail ∷ args) =
      search (steps, looks, writes, store_string-Takes) depth 12

  pub getset_command-Takes :
      (go : Runtime) (args : List Bytes) → Takes st now true (getset_command go st now args)
  unfolding getset_command
  getset_command-Takes go [] = Takes-raise arity_reply
  getset_command-Takes go (key ∷ []) = Takes-raise arity_reply
  getset_command-Takes go (key ∷ val ∷ args) =
      search (steps, looks, writes, store_string-Takes) depth 12

  pub setnx_command-Takes :
      (go : Runtime) (args : List Bytes) → Takes st now true (setnx_command go st now args)
  unfolding setnx_command
  setnx_command-Takes go [] = Takes-raise arity_reply
  setnx_command-Takes go (key ∷ []) = Takes-raise arity_reply
  setnx_command-Takes go (key ∷ val ∷ args) =
      search (steps, looks, writes, store_string-Takes) depth 12

  pub setex_command-Takes :
      (go : Runtime) (cmd : Bytes) (args : List Bytes)
      → Takes st now true (setex_command go st now cmd args)
  unfolding setex_command
  setex_command-Takes go cmd [] = Takes-raise arity_reply
  setex_command-Takes go cmd (key ∷ []) = Takes-raise arity_reply
  setex_command-Takes go cmd (key ∷ amount ∷ []) = Takes-raise arity_reply
  setex_command-Takes go cmd (key ∷ amount ∷ val ∷ args) =
      search (steps, looks, writes, positive-Takes) depth 12

  pub push_command-Takes :
      (go : Runtime) (cmd : Bytes) (args : List Bytes)
      → Takes st now true (push_command go st now cmd args)
  unfolding push_command
  push_command-Takes go cmd [] = Takes-raise arity_reply
  push_command-Takes go cmd (key ∷ []) = Takes-raise arity_reply
  push_command-Takes go cmd (key ∷ e ∷ es) = search (steps, looks, writes) depth 12

  pub pop_command-Takes :
      (go : Runtime) (cmd : Bytes) (args : List Bytes)
      → Takes st now true (pop_command go st now cmd args)
  unfolding pop_command
  pop_command-Takes go cmd [] = Takes-raise arity_reply
  pop_command-Takes go cmd (key ∷ more) = search (steps, looks, writes, pop_count-Takes) depth 12

  pub sadd_command-Takes : (args : List Bytes) → Takes st now true (sadd_command st now args)
  unfolding sadd_command
  sadd_command-Takes [] = Takes-raise arity_reply
  sadd_command-Takes (key ∷ []) = Takes-raise arity_reply
  sadd_command-Takes (key ∷ k ∷ ks) = search (steps, looks, writes) depth 12

  pub srem_command-Takes : (args : List Bytes) → Takes st now true (srem_command st now args)
  unfolding srem_command
  srem_command-Takes [] = Takes-raise arity_reply
  srem_command-Takes (key ∷ []) = Takes-raise arity_reply
  srem_command-Takes (key ∷ k ∷ ks) = search (steps, looks, writes) depth 12

  pub zadd_command-Takes :
      (go : Runtime) (args : List Bytes) → Takes st now true (zadd_command go st now args)
  unfolding zadd_command
  zadd_command-Takes go [] = Takes-raise arity_reply
  zadd_command-Takes go (key ∷ pairs) = search (steps, looks, writes, add_scores-Takes) depth 12

  pub zrem_command-Takes :
      (go : Runtime) (args : List Bytes) → Takes st now true (zrem_command go st now args)
  unfolding zrem_command
  zrem_command-Takes go [] = Takes-raise arity_reply
  zrem_command-Takes go (key ∷ []) = Takes-raise arity_reply
  zrem_command-Takes go (key ∷ k ∷ ks) = search (steps, looks, writes) depth 12

  pub hmset_command-Takes :
      (go : Runtime) (args : List Bytes) → Takes st now true (hmset_command go st now args)
  unfolding hmset_command
  hmset_command-Takes go [] = Takes-raise arity_reply
  hmset_command-Takes go (key ∷ pairs) = search (steps, looks, writes, put_fields-Takes) depth 12

  pub hdel_command-Takes :
      (go : Runtime) (args : List Bytes) → Takes st now true (hdel_command go st now args)
  unfolding hdel_command
  hdel_command-Takes go [] = Takes-raise arity_reply
  hdel_command-Takes go (key ∷ []) = Takes-raise arity_reply
  hdel_command-Takes go (key ∷ f ∷ fs) =
      search (steps, looks, writes, bury_fields-Takes, drop_empty-Takes) depth 12

  pub xadd_command-Takes :
      (go : Runtime) (args : List Bytes) → Takes st now true (xadd_command go st now args)
  unfolding xadd_command
  xadd_command-Takes go [] = Takes-raise arity_reply
  xadd_command-Takes go (key ∷ []) = Takes-raise arity_reply
  xadd_command-Takes go (key ∷ text ∷ []) = Takes-raise arity_reply
  xadd_command-Takes go (key ∷ text ∷ f ∷ []) = Takes-raise arity_reply
  xadd_command-Takes go (key ∷ text ∷ f ∷ val ∷ more) =
      search (steps, looks, writes, new_id-Takes) depth 12

  pub pexpire_command-Takes : (args : List Bytes) → Takes st now true (pexpire_command st now args)
  unfolding pexpire_command
  pexpire_command-Takes [] = Takes-raise arity_reply
  pexpire_command-Takes (key ∷ []) = Takes-raise arity_reply
  pexpire_command-Takes (key ∷ amount ∷ args) =
      search (steps, looks, writes, positive-Takes, visible_atom-Takes) depth 12

  pub persist_command-Takes : (args : List Bytes) → Takes st now true (persist_command st now args)
  unfolding persist_command
  persist_command-Takes [] = Takes-raise arity_reply
  persist_command-Takes (key ∷ args) = search (steps, looks, writes, visible_atom-Takes) depth 12

  bury_all-Takes : (paths : List Bytes) → Takes st now true (bury_all st now paths)
  unfolding bury_all
  bury_all-Takes [] = search steps
  bury_all-Takes (p ∷ ps) = Takes-bind _ _ (put_value-Takes _ _) (λ u. bury_all-Takes ps)

  pub flush_command-Takes : Takes st now true (flush_command st now)
  unfolding flush_command
  flush_command-Takes = record {
    from = λ s. Steps.indexed ((bury_all-Takes (st.frontier_paths now s.store)).from s) refl [];
  }
