-- ===== src/Server/Steps/Dispatch.antt =====
-- The steps of HandleExtended, internal/protocol/resp3/extended.go, as a whole.
use wavicle.Prelude.{
  Bytes, codes, bytes_beq, Bool, true, false, ◌≡◌, if◌then◌else◌, if_cases, elem, Option, none,
  some, List, [], ◌∷◌, to_upper, All, subst, arith, bytes_eq, Option-cases, inl, inr,
}
use wavicle.Core.{Time}
use wavicle.Storage.Store.{Store}
use wavicle.Server.State.{Server, pure}
use wavicle.Server.Values.{Runtime, Handler}
use wavicle.Server.Extended.{
  replied, string_command, list_command, set_commands, zset_command, hash_command, stream_command,
  fixed_reply, key_command, or_else, handler_of, handle_extended,
}
use wavicle.Server.Steps.{Steps, Takes, Takes-pure, here}
use wavicle.Server.Steps.Reads
use wavicle.Server.Steps.Writes

-- a handler that takes such steps, if there is one
pub record Sound {S : Type 0} (st : Store S) (now : Time) (w : Bool) (o : Option (Handler S Bytes))
    : Type 0 where
  pub takes : (m : Handler S Bytes) → o ≡ some m → Takes st now w m

same_some : {S : Type 0} (m n : Handler S Bytes) → some m ≡ some n → m ≡ n
same_some m n e = cc e

module _ {S : Type 0} {st : Store S} {now : Time} {w : Bool} where
  Sound-none : Sound st now w none
  Sound-none = record { takes = λ m e. absurd (ground (arith, e)) }

  Sound-some : (m : Handler S Bytes) → Takes st now w m → Sound st now w (some m)
  Sound-some m t = record { takes = λ n e. subst (Takes st now w) (same_some m n e) t }

  Sound-or_else :
      (m n : Option (Handler S Bytes))
      → Sound st now w m
      → Sound st now w n
      → Sound st now w (or_else m n)
  Sound-or_else none n p q = q
  Sound-or_else (some m) n p q = p

  Sound-if :
      (b : Bool) (m : Handler S Bytes) (n : Option (Handler S Bytes))
      → Takes st now w m
      → Sound st now w n
      → Sound st now w (if b then some m else n)
  Sound-if b m n p q = if_cases (Sound st now w) b (some m) n (Sound-some m p) q

module _ {S : Type 0} (go : Runtime) (uptime : Bytes) (st : Store S) (now : Time) where
  string_command-Sound :
      (cmd : Bytes) (args : List Bytes)
      → Sound st now true (string_command go uptime st now cmd args)
  unfolding string_command
  string_command-Sound cmd args = Sound-if _ _ _ (Writes.counter_command-Takes go cmd args) (
      Sound-if _ _ _ (Writes.append_command-Takes go args) (
        Sound-if _ _ _ (Reads.strlen_command-Takes go args) (
          Sound-if _ _ _ (Writes.getset_command-Takes go args) (
            Sound-if _ _ _ (Writes.setnx_command-Takes go args)
              (Sound-if _ _ _ (Writes.setex_command-Takes go cmd args) Sound-none)))))

  list_command-Sound :
      (cmd : Bytes) (args : List Bytes) → Sound st now true (list_command go uptime st now cmd args)
  unfolding list_command
  list_command-Sound cmd args = Sound-if _ _ _ (Writes.push_command-Takes go cmd args) (
      Sound-if _ _ _ (Writes.pop_command-Takes go cmd args) (
        Sound-if _ _ _ (Reads.llen_command-Takes go args) (
          Sound-if _ _ _ (Reads.lrange_command-Takes go args)
            (Sound-if _ _ _ (Reads.lindex_command-Takes go args) Sound-none))))

  set_commands-Sound :
      (cmd : Bytes) (args : List Bytes) → Sound st now true (set_commands go uptime st now cmd args)
  unfolding set_commands
  set_commands-Sound cmd args = Sound-if _ _ _ (Writes.sadd_command-Takes args) (
      Sound-if _ _ _ (Writes.srem_command-Takes args) (
        Sound-if _ _ _ (Reads.smembers_command-Takes args) (
          Sound-if _ _ _ (Reads.scard_command-Takes args)
            (Sound-if _ _ _ (Reads.sismember_command-Takes args) Sound-none))))

  zset_command-Sound :
      (cmd : Bytes) (args : List Bytes) → Sound st now true (zset_command go uptime st now cmd args)
  unfolding zset_command
  zset_command-Sound cmd args = Sound-if _ _ _ (Writes.zadd_command-Takes go args) (
      Sound-if _ _ _ (Reads.zscore_command-Takes go args) (
        Sound-if _ _ _ (Reads.zcard_command-Takes go args) (
          Sound-if _ _ _ (Writes.zrem_command-Takes go args)
            (Sound-if _ _ _ (Reads.zrange_command-Takes go args) Sound-none))))

  hash_command-Sound :
      (cmd : Bytes) (args : List Bytes) → Sound st now true (hash_command go uptime st now cmd args)
  unfolding hash_command
  hash_command-Sound cmd args = Sound-if _ _ _ (Writes.hmset_command-Takes go args) (
      Sound-if _ _ _ (Reads.hmget_command-Takes go args) (
        Sound-if _ _ _ (Writes.hdel_command-Takes go args) (
          Sound-if _ _ _ (Reads.hlen_command-Takes go args) (
            Sound-if _ _ _ (Reads.hexists_command-Takes go args) (
              Sound-if _ _ _ (Reads.hkeys_command-Takes go args)
                (Sound-if _ _ _ (Reads.hvals_command-Takes go args) Sound-none))))))

  stream_command-Sound :
      (cmd : Bytes) (args : List Bytes)
      → Sound st now true (stream_command go uptime st now cmd args)
  unfolding stream_command
  stream_command-Sound cmd args = Sound-if _ _ _ (Writes.xadd_command-Takes go args) (
      Sound-if _ _ _ (Reads.xlen_command-Takes go args)
        (Sound-if _ _ _ (Reads.xrange_command-Takes go args) Sound-none))

  fixed_reply-Sound :
      (cmd : Bytes)
      → Sound st now true
          (elim (fixed_reply go uptime st now cmd) [ none ↦ none | some r ↦ some (pure r) ])
  fixed_reply-Sound cmd = elim (Option-cases (fixed_reply go uptime st now cmd)) [
    | inl e ↦ rw e Sound-none
    | inr (r, e) ↦ rw e (Sound-some _ (Takes-pure r))
  ]

  key_command-Sound :
      (cmd : Bytes) (args : List Bytes) → Sound st now true (key_command go uptime st now cmd args)
  unfolding key_command
  key_command-Sound cmd args = Sound-if _ _ _ (Reads.type_command-Takes args) (
      Sound-if _ _ _ (Reads.keys_command-Takes args) (
        Sound-if _ _ _ (Reads.scan_command-Takes args) (
          Sound-if _ _ _ (Reads.info_command-Takes uptime) (
            Sound-if _ _ _ Writes.flush_command-Takes (
              Sound-if _ _ _ (Writes.pexpire_command-Takes args) (
                Sound-if _ _ _ (Reads.pttl_command-Takes args)
                  (Sound-if _ _ _ (Writes.persist_command-Takes args) (fixed_reply-Sound cmd))))))))

  handler_of-Sound :
      (cmd : Bytes) (args : List Bytes) → Sound st now true (handler_of go uptime st now cmd args)
  unfolding handler_of
  handler_of-Sound cmd args = Sound-or_else _ _ (string_command-Sound cmd args) (
      Sound-or_else _ _ (list_command-Sound cmd args) (
        Sound-or_else _ _ (set_commands-Sound cmd args) (
          Sound-or_else _ _ (zset_command-Sound cmd args) (
            Sound-or_else _ _ (hash_command-Sound cmd args)
              (Sound-or_else _ _ (stream_command-Sound cmd args) (key_command-Sound cmd args))))))

  -- Every extended command is a sequence of looks at keys, appends and changes of the index.
  pub handle_extended-Steps :
      (args : List Bytes) (s : Server S)
      → Steps st now true s (handle_extended go uptime st now args s).0
  unfolding handle_extended replied
  handle_extended-Steps [] s = here
  handle_extended-Steps (name ∷ args) s =
      elim (Option-cases (handler_of go uptime st now (to_upper name) args)) [
        | inl e ↦ rw (e, handle_extended) here
        | inr (m, e) ↦
            rw (e, handle_extended) (((handler_of-Sound (to_upper name) args).takes m e).from s)
      ]

-- the names of the commands that look only
abbrev pub looking : List Bytes
looking =
    codes "STRLEN"
    ∷ codes "LLEN"
    ∷ codes "LRANGE"
    ∷ codes "LINDEX"
    ∷ codes "SMEMBERS"
    ∷ codes "SCARD"
    ∷ codes "SISMEMBER"
    ∷ codes "ZSCORE"
    ∷ codes "ZCARD"
    ∷ codes "ZRANGE"
    ∷ codes "HMGET"
    ∷ codes "HLEN"
    ∷ codes "HEXISTS"
    ∷ codes "HKEYS"
    ∷ codes "HVALS"
    ∷ codes "XLEN"
    ∷ codes "XRANGE"
    ∷ codes "KEYS"
    ∷ codes "SCAN"
    ∷ codes "TYPE"
    ∷ codes "PTTL"
    ∷ codes "INFO"
    ∷ []

module _ {S : Type 0} (go : Runtime) (uptime : Bytes) (st : Store S) (now : Time) where
  pub looking-Sound :
      (args : List Bytes)
      → All (λ cmd. Sound st now false (handler_of go uptime st now cmd args)) looking
  unfolding handler_of string_command list_command set_commands zset_command hash_command
      stream_command key_command bytes_beq elem
  looking-Sound args =
      let one = λ (m : Handler S Bytes) (t : Takes st now false m). Sound-some m t in
      (
        one _ (Reads.strlen_command-Takes go args),
        (
          one _ (Reads.llen_command-Takes go args),
          (
            one _ (Reads.lrange_command-Takes go args),
            (
              one _ (Reads.lindex_command-Takes go args),
              (
                one _ (Reads.smembers_command-Takes args),
                (
                  one _ (Reads.scard_command-Takes args),
                  (
                    one _ (Reads.sismember_command-Takes args),
                    (
                      one _ (Reads.zscore_command-Takes go args),
                      (
                        one _ (Reads.zcard_command-Takes go args),
                        (
                          one _ (Reads.zrange_command-Takes go args),
                          (
                            one _ (Reads.hmget_command-Takes go args),
                            (
                              one _ (Reads.hlen_command-Takes go args),
                              (
                                one _ (Reads.hexists_command-Takes go args),
                                (
                                  one _ (Reads.hkeys_command-Takes go args),
                                  (
                                    one _ (Reads.hvals_command-Takes go args),
                                    (
                                      one _ (Reads.xlen_command-Takes go args),
                                      (
                                        one _ (Reads.xrange_command-Takes go args),
                                        (
                                          one _ (Reads.keys_command-Takes args),
                                          (
                                            one _ (Reads.scan_command-Takes args),
                                            (
                                              one _ (Reads.type_command-Takes args),
                                              (
                                                one _ (Reads.pttl_command-Takes args),
                                                (one _ (Reads.info_command-Takes uptime), tt),
                                              ),
                                            ),
                                          ),
                                        ),
                                      ),
                                    ),
                                  ),
                                ),
                              ),
                            ),
                          ),
                        ),
                      ),
                    ),
                  ),
                ),
              ),
            ),
          ),
        ),
      )
