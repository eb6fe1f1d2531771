-- ===== src/Server/Commands/Dispatch.antt =====
-- HandleCommand of internal/protocol/resp3/server.go: the choice of the command, and the stale guard.
use wavicle.Prelude.{
  ℕ, Bytes, codes, Bool, ◌==◌, bytes_eq, if◌then◌else◌, Option, none, some, List, [], ◌∷◌, ◌++◌,
  elem, to_upper,
}
use wavicle.Core.{Value, Time, Platform}
use wavicle.Storage.Store.{Store}
use wavicle.Server.State.{
  empty_command, unknown_command, Command, pure, raise, ◌>>=◌, ◌>>◌, refuse_stale,
}
use wavicle.Server.Commands.{
  crlf, set_command, get_command, del_command, exists_command, dbsize_command,
}
use wavicle.Server.Commands.Mass.{
  mget_command, mset_command, hset_command, hget_command, hgetall_command, expire_command,
  ttl_command,
}

abbrev pub extended_reads : List Bytes
extended_reads =
    codes "STRLEN"
    ∷ codes "LLEN"
    ∷ codes "LRANGE"
    ∷ codes "LINDEX"
    ∷ codes "LPOP"
    ∷ codes "RPOP"
    ∷ codes "SMEMBERS"
    ∷ codes "SCARD"
    ∷ codes "SISMEMBER"
    ∷ codes "ZSCORE"
    ∷ codes "ZCARD"
    ∷ codes "ZRANGE"
    ∷ codes "HMGET"
    ∷ codes "HLEN"
    ∷ codes "HEXISTS"
    ∷ codes "HKEYS"
    ∷ codes "HVALS"
    ∷ codes "XLEN"
    ∷ codes "XRANGE"
    ∷ codes "KEYS"
    ∷ codes "SCAN"
    ∷ []

-- isExtendedRead
unfoldable pub is_extended_read : Bytes → Bool
unfolding elem
is_extended_read cmd = elem cmd extended_reads

module _ {S : Type 0} (os : Platform) (xxhash : Bytes → ℕ) (show : Value → Bytes) (st : Store S)
    (fuel : ℕ) (now : Time) (select : Bytes → Command S (Bytes × Option Bytes))
    (extended : List Bytes → Command S (Option Bytes)) where
  -- the default case
  unfoldable pub other_command : Bytes → List Bytes → Command S Bytes
  unfolding is_extended_read refuse_stale
  other_command cmd args = do
    if is_extended_read cmd then refuse_stale st now else pure tt
    reply ← extended args
    elim reply [ none ↦ raise (unknown_command cmd) | some r ↦ pure r ]

  -- the switch over the command's name in capitals; `args` are the arguments behind it
  unfoldable pub dispatch : Bytes → Bytes → List Bytes → Command S Bytes
  unfolding set_command get_command del_command exists_command dbsize_command mget_command
      mset_command hset_command hget_command hgetall_command expire_command ttl_command
      other_command
  dispatch cmd name args =
      if cmd == codes "PING"
      then pure (codes "+PONG" ++ crlf)
      else if cmd == codes "SET"
      then set_command os xxhash show st fuel now args
      else if cmd == codes "GET"
      then get_command os xxhash show st fuel now select args
      else if cmd == codes "DEL"
      then del_command os xxhash show st fuel now args
      else if cmd == codes "EXISTS"
      then exists_command os xxhash show st fuel now args
      else if cmd == codes "DBSIZE"
      then dbsize_command os xxhash show st fuel now
      else if cmd == codes "MGET"
      then mget_command os xxhash show st fuel now args
      else if cmd == codes "MSET"
      then mset_command os xxhash show st fuel now args
      else if cmd == codes "HSET"
      then hset_command os xxhash show st fuel now args
      else if cmd == codes "HGET"
      then hget_command os xxhash show st fuel now args
      else if cmd == codes "HGETALL"
      then hgetall_command os xxhash show st fuel now args
      else if cmd == codes "EXPIRE"
      then expire_command os xxhash show st fuel now args
      else if cmd == codes "TTL"
      then ttl_command os xxhash show st fuel now args
      else other_command cmd (name ∷ args)

  -- HandleCommand
  unfoldable pub handle_command : List Bytes → Command S Bytes
  unfolding dispatch to_upper
  handle_command [] = raise empty_command
  handle_command (name ∷ args) = dispatch (to_upper name) name args
