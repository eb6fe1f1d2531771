-- ===== src/Server/Steps/Reads.antt =====
-- The extended commands that look only.
use wavicle.Prelude.{has_prefix, trim_prefix, Bytes, ◌++◌, Bool, List, [], ◌∷◌, bytes_eq}
use wavicle.Core.{Time}
use wavicle.Storage.Store.{Store}
use wavicle.Server.Commands.Mass.{field_path}
use wavicle.Server.Values.{Runtime, arity_reply}
use wavicle.Server.Steps.{
  Takes, Takes-bind, Takes-pure, Takes-raise, Takes-given, Takes-if, steps, here, looked,
}
use wavicle.Server.Steps.Values.{looks, cur_value-Takes}
use wavicle.Server.Extended.Strings.{strlen_command}
use wavicle.Server.Extended.Lists.{llen_command, lrange_command, lindex_command, range_of}
use wavicle.Server.Extended.Sets.{smembers_command, scard_command, sismember_command}
use wavicle.Server.Extended.SortedSets.{zscore_command, zcard_command, zrange_command}
use wavicle.Server.Extended.Hashes.{
  hmget_command, hlen_command, hexists_command, hkeys_command, hvals_command, field_value,
  field_values, with_field, collect_fields, hash_fields,
}
use wavicle.Server.Extended.Streams.{xlen_command, xrange_command, range_bound}
use wavicle.Server.Extended.Keys.{
  type_command, type_word, absent_type, keys_command, pttl_command, scan_command, info_command,
  visible_atom,
}

module _ {S : Type 0} {st : Store S} {now : Time} {w : Bool} where
  pub range_of-Takes : (low high : Bytes) → Takes st now w (range_of low high)
  unfolding range_of
  range_of-Takes low high = search steps depth 12

  field_value-Takes : (go : Runtime) (path : Bytes) → Takes st now w (field_value go st now path)
  unfolding field_value
  field_value-Takes go path = search (steps, looks)

  field_values-Takes :
      (go : Runtime) (key : Bytes) (fs : List Bytes)
      → Takes st now w (field_values go st now key fs)
  unfolding field_values
  field_values-Takes go key [] = search steps
  field_values-Takes go key (f ∷ fs) =
      Takes-bind _ _ (field_value-Takes go (field_path key f))
        (λ r. Takes-bind _ _ (field_values-Takes go key fs) (λ rest. Takes-pure (r ++ rest)))

  collect_fields-Takes :
      (go : Runtime) (key : Bytes) (ps : List Bytes)
      → Takes st now w (collect_fields go st now key ps)
  unfolding collect_fields
  collect_fields-Takes go key [] = search steps
  collect_fields-Takes go key (p ∷ ps) =
      Takes-if (has_prefix p key) _ _
        (Takes-bind _ _ (cur_value-Takes p) (λ found.
          Takes-bind _ _ (collect_fields-Takes go key ps)
            (λ m. Takes-pure (with_field go st now (trim_prefix p key) found m))))
        (collect_fields-Takes go key ps)

  hash_fields-Takes : (go : Runtime) (key : Bytes) → Takes st now w (hash_fields go st now key)
  unfolding hash_fields
  hash_fields-Takes go key = record { from = λ s. (collect_fields-Takes go _ _).from s }

  range_bound-Takes :
      (go : Runtime) (free bad text : Bytes) → Takes st now w (range_bound go st now free bad text)
  unfolding range_bound
  range_bound-Takes go free bad text = search steps depth 12

  pub visible_atom-Takes : (key : Bytes) → Takes st now w (visible_atom st now key)
  unfolding visible_atom
  visible_atom-Takes key = record { from = λ s. looked here key }

  pub strlen_command-Takes :
      (go : Runtime) (args : List Bytes) → Takes st now w (strlen_command go st now args)
  unfolding strlen_command
  strlen_command-Takes go [] = Takes-raise arity_reply
  strlen_command-Takes go (key ∷ args) = search (steps, looks) depth 12

  pub llen_command-Takes :
      (go : Runtime) (args : List Bytes) → Takes st now w (llen_command go st now args)
  unfolding llen_command
  llen_command-Takes go [] = Takes-raise arity_reply
  llen_command-Takes go (key ∷ args) = search (steps, looks) depth 12

  pub lrange_command-Takes :
      (go : Runtime) (args : List Bytes) → Takes st now w (lrange_command go st now args)
  unfolding lrange_command
  lrange_command-Takes go [] = Takes-raise arity_reply
  lrange_command-Takes go (key ∷ []) = Takes-raise arity_reply
  lrange_command-Takes go (key ∷ low ∷ []) = Takes-raise arity_reply
  lrange_command-Takes go (key ∷ low ∷ high ∷ args) = search (steps, looks, range_of-Takes) depth 12

  pub lindex_command-Takes :
      (go : Runtime) (args : List Bytes) → Takes st now w (lindex_command go st now args)
  unfolding lindex_command
  lindex_command-Takes go [] = Takes-raise arity_reply
  lindex_command-Takes go (key ∷ []) = Takes-raise arity_reply
  lindex_command-Takes go (key ∷ index ∷ args) = search (steps, looks) depth 12

  pub smembers_command-Takes : (args : List Bytes) → Takes st now w (smembers_command st now args)
  unfolding smembers_command
  smembers_command-Takes [] = Takes-raise arity_reply
  smembers_command-Takes (key ∷ args) = search (steps, looks) depth 12

  pub scard_command-Takes : (args : List Bytes) → Takes st now w (scard_command st now args)
  unfolding scard_command
  scard_command-Takes [] = Takes-raise arity_reply
  scard_command-Takes (key ∷ args) = search (steps, looks) depth 12

  pub sismember_command-Takes : (args : List Bytes) → Takes st now w (sismember_command st now args)
  unfolding sismember_command
  sismember_command-Takes [] = Takes-raise arity_reply
  sismember_command-Takes (key ∷ []) = Takes-raise arity_reply
  sismember_command-Takes (key ∷ k ∷ args) = search (steps, looks) depth 12

  pub zscore_command-Takes :
      (go : Runtime) (args : List Bytes) → Takes st now w (zscore_command go st now args)
  unfolding zscore_command
  zscore_command-Takes go [] = Takes-raise arity_reply
  zscore_command-Takes go (key ∷ []) = Takes-raise arity_reply
  zscore_command-Takes go (key ∷ k ∷ args) = search (steps, looks) depth 12

  pub zcard_command-Takes :
      (go : Runtime) (args : List Bytes) → Takes st now w (zcard_command go st now args)
  unfolding zcard_command
  zcard_command-Takes go [] = Takes-raise arity_reply
  zcard_command-Takes go (key ∷ args) = search (steps, looks) depth 12

  pub zrange_command-Takes :
      (go : Runtime) (args : List Bytes) → Takes st now w (zrange_command go st now args)
  unfolding zrange_command
  zrange_command-Takes go [] = Takes-raise arity_reply
  zrange_command-Takes go (key ∷ []) = Takes-raise arity_reply
  zrange_command-Takes go (key ∷ low ∷ []) = Takes-raise arity_reply
  zrange_command-Takes go (key ∷ low ∷ high ∷ args) = search (steps, looks, range_of-Takes) depth 12

  pub hmget_command-Takes :
      (go : Runtime) (args : List Bytes) → Takes st now w (hmget_command go st now args)
  unfolding hmget_command
  hmget_command-Takes go [] = Takes-raise arity_reply
  hmget_command-Takes go (key ∷ []) = Takes-raise arity_reply
  hmget_command-Takes go (key ∷ f ∷ fs) = search (steps, looks, field_values-Takes) depth 12

  pub hlen_command-Takes :
      (go : Runtime) (args : List Bytes) → Takes st now w (hlen_command go st now args)
  unfolding hlen_command
  hlen_command-Takes go [] = Takes-raise arity_reply
  hlen_command-Takes go (key ∷ args) = search (steps, looks, hash_fields-Takes) depth 12

  pub hexists_command-Takes :
      (go : Runtime) (args : List Bytes) → Takes st now w (hexists_command go st now args)
  unfolding hexists_command
  hexists_command-Takes go [] = Takes-raise arity_reply
  hexists_command-Takes go (key ∷ []) = Takes-raise arity_reply
  hexists_command-Takes go (key ∷ f ∷ args) = search (steps, looks, hash_fields-Takes) depth 12

  pub hkeys_command-Takes :
      (go : Runtime) (args : List Bytes) → Takes st now w (hkeys_command go st now args)
  unfolding hkeys_command
  hkeys_command-Takes go [] = Takes-raise arity_reply
  hkeys_command-Takes go (key ∷ args) = search (steps, looks, hash_fields-Takes) depth 12

  pub hvals_command-Takes :
      (go : Runtime) (args : List Bytes) → Takes st now w (hvals_command go st now args)
  unfolding hvals_command
  hvals_command-Takes go [] = Takes-raise arity_reply
  hvals_command-Takes go (key ∷ args) = search (steps, looks, hash_fields-Takes) depth 12

  pub xlen_command-Takes :
      (go : Runtime) (args : List Bytes) → Takes st now w (xlen_command go st now args)
  unfolding xlen_command
  xlen_command-Takes go [] = Takes-raise arity_reply
  xlen_command-Takes go (key ∷ args) = search (steps, looks) depth 12

  pub xrange_command-Takes :
      (go : Runtime) (args : List Bytes) → Takes st now w (xrange_command go st now args)
  unfolding xrange_command
  xrange_command-Takes go [] = Takes-raise arity_reply
  xrange_command-Takes go (key ∷ []) = Takes-raise arity_reply
  xrange_command-Takes go (key ∷ low ∷ []) = Takes-raise arity_reply
  xrange_command-Takes go (key ∷ low ∷ high ∷ args) =
      search (steps, looks, range_bound-Takes) depth 12

  absent_type-Takes : (key : Bytes) → Takes st now w (absent_type st now key)
  unfolding absent_type
  absent_type-Takes key = record { from = λ s. here }

  pub type_command-Takes : (args : List Bytes) → Takes st now w (type_command st now args)
  unfolding type_command
  type_command-Takes [] = Takes-raise arity_reply
  type_command-Takes (key ∷ args) =
      Takes-bind _ _ (cur_value-Takes key)
        (λ found. Takes-given found _ _ (absent_type-Takes key) (λ v. Takes-pure (type_word v)))

  pub keys_command-Takes : (args : List Bytes) → Takes st now w (keys_command st now args)
  unfolding keys_command
  keys_command-Takes [] = Takes-raise arity_reply
  keys_command-Takes (pat ∷ args) = record { from = λ s. here }

  pub pttl_command-Takes : (args : List Bytes) → Takes st now w (pttl_command st now args)
  unfolding pttl_command
  pttl_command-Takes [] = Takes-raise arity_reply
  pttl_command-Takes (key ∷ args) = search (steps, looks, visible_atom-Takes) depth 12

  pub scan_command-Takes : (args : List Bytes) → Takes st now w (scan_command st now args)
  unfolding scan_command
  scan_command-Takes args = record { from = λ s. here }

  pub info_command-Takes : (uptime : Bytes) → Takes st now w (info_command st now uptime)
  unfolding info_command
  info_command-Takes uptime = record { from = λ s. here }
