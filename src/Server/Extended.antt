-- ===== src/Server/Extended.antt =====
-- HandleExtended of internal/protocol/resp3/extended.go: the choice of the command.
pub mod Strings
pub mod Counted
pub mod Lists
pub mod Ranges
pub mod Pushed
pub mod Sets
pub mod Members
pub mod SortedSets
pub mod Hashes
pub mod Streams
pub mod Typed
pub mod Indexing
pub mod StreamIds
pub mod Keys
use wavicle.Prelude.{
  Bytes, codes, ◌==◌, bytes_eq, if◌then◌else◌, elem, Option, none, some, List, [], ◌∷◌, ◌++◌,
  to_upper, Outcome, ok, err,
}
use wavicle.Core.{Time}
use wavicle.Storage.Store.{Store}
use wavicle.Server.State.{Server, Command, pure}
use wavicle.Server.Commands.{crlf, ok_reply}
use wavicle.Server.Values.{Runtime, Handler}
use wavicle.Server.Extended.Strings.{
  counter_command, append_command, strlen_command, getset_command, setnx_command, setex_command,
}
use wavicle.Server.Extended.Lists.{
  push_command, pop_command, llen_command, lrange_command, lindex_command,
}
use wavicle.Server.Extended.Sets.{
  sadd_command, srem_command, smembers_command, scard_command, sismember_command,
}
use wavicle.Server.Extended.SortedSets.{
  zadd_command, zscore_command, zcard_command, zrem_command, zrange_command,
}
use wavicle.Server.Extended.Hashes.{
  hmset_command, hmget_command, hdel_command, hlen_command, hexists_command, hkeys_command,
  hvals_command,
}
use wavicle.Server.Extended.Streams.{xadd_command, xlen_command, xrange_command}
use wavicle.Server.Extended.Keys.{
  type_command, keys_command, scan_command, info_command, flush_command, pexpire_command,
  pttl_command, persist_command,
}

-- a reply, whichever way a handler gave it
unfoldable pub replied : {S : Type 0} → Handler S Bytes → Command S (Option Bytes)
replied m s = let r = m s in (r.0, ok (elim r.1 [ ok reply ↦ some reply | err reply ↦ some reply ]))

abbrev pub or_else :
    {S : Type 0} → Option (Handler S Bytes) → Option (Handler S Bytes) → Option (Handler S Bytes)
or_else none n = n
or_else (some m) n = some m

abbrev pub script_reply : Bytes
script_reply = codes "NOSCRIPT Lua scripting is disabled in Wavicle proof mode" ++ crlf

module _ {S : Type 0} (go : Runtime) (uptime : Bytes) (st : Store S) (now : Time) where
  -- the commands on strings and lists
  unfoldable pub string_command : Bytes → List Bytes → Option (Handler S Bytes)
  unfolding counter_command append_command strlen_command getset_command setnx_command setex_command
      elem
  string_command cmd args =
      if elem cmd (codes "INCR" ∷ codes "DECR" ∷ codes "INCRBY" ∷ codes "DECRBY" ∷ [])
      then some (counter_command go st now cmd args)
      else if cmd == codes "APPEND"
      then some (append_command go st now args)
      else if cmd == codes "STRLEN"
      then some (strlen_command go st now args)
      else if cmd == codes "GETSET"
      then some (getset_command go st now args)
      else if cmd == codes "SETNX"
      then some (setnx_command go st now args)
      else if elem cmd (codes "SETEX" ∷ codes "PSETEX" ∷ [])
      then some (setex_command go st now cmd args)
      else none

  unfoldable pub list_command : Bytes → List Bytes → Option (Handler S Bytes)
  unfolding push_command pop_command llen_command lrange_command lindex_command elem
  list_command cmd args =
      if elem cmd (codes "LPUSH" ∷ codes "RPUSH" ∷ [])
      then some (push_command go st now cmd args)
      else if elem cmd (codes "LPOP" ∷ codes "RPOP" ∷ [])
      then some (pop_command go st now cmd args)
      else if cmd == codes "LLEN"
      then some (llen_command go st now args)
      else if cmd == codes "LRANGE"
      then some (lrange_command go st now args)
      else if cmd == codes "LINDEX"
      then some (lindex_command go st now args)
      else none

  -- the commands on sets and sorted sets
  unfoldable pub set_commands : Bytes → List Bytes → Option (Handler S Bytes)
  unfolding sadd_command srem_command smembers_command scard_command sismember_command
  set_commands cmd args =
      if cmd == codes "SADD"
      then some (sadd_command st now args)
      else if cmd == codes "SREM"
      then some (srem_command st now args)
      else if cmd == codes "SMEMBERS"
      then some (smembers_command st now args)
      else if cmd == codes "SCARD"
      then some (scard_command st now args)
      else if cmd == codes "SISMEMBER"
      then some (sismember_command st now args)
      else none

  unfoldable pub zset_command : Bytes → List Bytes → Option (Handler S Bytes)
  unfolding zadd_command zscore_command zcard_command zrem_command zrange_command
  zset_command cmd args =
      if cmd == codes "ZADD"
      then some (zadd_command go st now args)
      else if cmd == codes "ZSCORE"
      then some (zscore_command go st now args)
      else if cmd == codes "ZCARD"
      then some (zcard_command go st now args)
      else if cmd == codes "ZREM"
      then some (zrem_command go st now args)
      else if cmd == codes "ZRANGE"
      then some (zrange_command go st now args)
      else none

  -- handleHashExtended
  unfoldable pub hash_command : Bytes → List Bytes → Option (Handler S Bytes)
  unfolding hmset_command hmget_command hdel_command hlen_command hexists_command hkeys_command
      hvals_command
  hash_command cmd args =
      if cmd == codes "HMSET"
      then some (hmset_command go st now args)
      else if cmd == codes "HMGET"
      then some (hmget_command go st now args)
      else if cmd == codes "HDEL"
      then some (hdel_command go st now args)
      else if cmd == codes "HLEN"
      then some (hlen_command go st now args)
      else if cmd == codes "HEXISTS"
      then some (hexists_command go st now args)
      else if cmd == codes "HKEYS"
      then some (hkeys_command go st now args)
      else if cmd == codes "HVALS"
      then some (hvals_command go st now args)
      else none

  unfoldable pub stream_command : Bytes → List Bytes → Option (Handler S Bytes)
  unfolding xadd_command xlen_command xrange_command
  stream_command cmd args =
      if cmd == codes "XADD"
      then some (xadd_command go st now args)
      else if cmd == codes "XLEN"
      then some (xlen_command go st now args)
      else if cmd == codes "XRANGE"
      then some (xrange_command go st now args)
      else none

  -- the commands that only answer
  unfoldable pub fixed_reply : Bytes → Option Bytes
  unfolding elem
  fixed_reply cmd =
      if cmd == codes "HELLO"
      then some (codes "%1" ++ crlf ++ codes "+server" ++ crlf ++ codes "+wavicle" ++ crlf)
      else if elem cmd (codes "CLIENT" ∷ codes "CONFIG" ∷ codes "SELECT" ∷ codes "AUTH" ∷ [])
      then some ok_reply
      else if elem cmd (codes "EVAL" ∷ codes "EVALSHA" ∷ codes "SCRIPT" ∷ codes "FUNCTION" ∷ [])
      then some script_reply
      else none

  unfoldable pub key_command : Bytes → List Bytes → Option (Handler S Bytes)
  unfolding type_command keys_command scan_command info_command flush_command pexpire_command
      pttl_command persist_command fixed_reply elem
  key_command cmd args =
      if cmd == codes "TYPE"
      then some (type_command st now args)
      else if cmd == codes "KEYS"
      then some (keys_command st now args)
      else if cmd == codes "SCAN"
      then some (scan_command st now args)
      else if cmd == codes "INFO"
      then some (info_command st now uptime)
      else if elem cmd (codes "FLUSHDB" ∷ codes "FLUSHALL" ∷ [])
      then some (flush_command st now)
      else if cmd == codes "PEXPIRE"
      then some (pexpire_command st now args)
      else if cmd == codes "PTTL"
      then some (pttl_command st now args)
      else if cmd == codes "PERSIST"
      then some (persist_command st now args)
      else elim (fixed_reply cmd) [ none ↦ none | some r ↦ some (pure r) ]

  -- the handler of a command, whose names are in capitals; none for one that is not known
  unfoldable pub handler_of : Bytes → List Bytes → Option (Handler S Bytes)
  unfolding string_command list_command set_commands zset_command hash_command stream_command
      key_command
  handler_of cmd args = or_else (string_command cmd args) (
      or_else (list_command cmd args) (
        or_else (set_commands cmd args) (
          or_else (zset_command cmd args) (
            or_else (hash_command cmd args)
              (or_else (stream_command cmd args) (key_command cmd args))))))

  -- HandleExtended
  unfoldable pub handle_extended : List Bytes → Command S (Option Bytes)
  unfolding handler_of replied to_upper
  handle_extended [] s = pure none s
  handle_extended (name ∷ args) s = elim (handler_of (to_upper name) args) [
    | none ↦ pure none s
    | some m ↦ replied m s
  ]
