-- ===== src/Server/Commands/Stale.antt =====
-- Reads fail closed: what HandleCommand answers while the stale guard refuses.
use wavicle.Prelude.{
  ℕ, Bytes, codes, bytes_beq, true, ◌≡◌, refl, bytes_eq, Option, some, List, ◌∷◌, elem, to_upper,
  err, All, All-elem,
}
use wavicle.Core.{Value, Time, Platform}
use wavicle.Storage.Store.{Store}
use wavicle.Replication.SlotMonitor.Guard.{Stale, stale_refused}
use wavicle.Server.State.{Server, stale, Command, refuse_stale}
use wavicle.Server.Commands.{get_command}
use wavicle.Server.Commands.Mass.{mget_command, hget_command, hgetall_command}
use wavicle.Server.Commands.Dispatch.{
  extended_reads, is_extended_read, other_command, dispatch, handle_command,
}

-- the commands that the guard stands before
abbrev pub guarded_reads : List Bytes
guarded_reads = codes "GET" ∷ codes "MGET" ∷ codes "HGET" ∷ codes "HGETALL" ∷ extended_reads

module _ {S : Type 0} (os : Platform) (xxhash : Bytes → ℕ) (show : Value → Bytes) (st : Store S)
    (fuel : ℕ) (now : Time) (select : Bytes → Command S (Bytes × Option Bytes))
    (extended : List Bytes → Command S (Option Bytes)) where
  abbrev Refused : Bytes → List Bytes → Server S → Stale → Bytes → Type 0
  Refused name args s e cmd =
      dispatch os xxhash show st fuel now select extended cmd name args s ≡ (s, err (stale e))

  stopped :
      (s : Server S) (e : Stale)
      → stale_refused s.stale_guard now ≡ some e
      → refuse_stale st now s ≡ (s, err (stale e))
  unfolding refuse_stale
  stopped s e refused = rw (refuse_stale, refused) refl

  guarded-Refused :
      (name : Bytes) (args : List Bytes) (s : Server S) (e : Stale)
      → stale_refused s.stale_guard now ≡ some e
      → All (Refused name args s e) guarded_reads
  unfolding dispatch get_command mget_command hget_command hgetall_command other_command
      is_extended_read bytes_beq elem
  guarded-Refused name args s e refused =
      let p = stopped s e refused in
      (
        rw p refl,
        (
          rw p refl,
          (
            rw p refl,
            (
              rw p refl,
              (
                rw p refl,
                (
                  rw p refl,
                  (
                    rw p refl,
                    (
                      rw p refl,
                      (
                        rw p refl,
                        (
                          rw p refl,
                          (
                            rw p refl,
                            (
                              rw p refl,
                              (
                                rw p refl,
                                (
                                  rw p refl,
                                  (
                                    rw p refl,
                                    (
                                      rw p refl,
                                      (
                                        rw p refl,
                                        (
                                          rw p refl,
                                          (
                                            rw p refl,
                                            (
                                              rw p refl,
                                              (
                                                rw p refl,
                                                (
                                                  rw p refl,
                                                  (rw p refl, (rw p refl, (rw p refl, tt))),
                                                ),
                                              ),
                                            ),
                                          ),
                                        ),
                                      ),
                                    ),
                                  ),
                                ),
                              ),
                            ),
                          ),
                        ),
                      ),
                    ),
                  ),
                ),
              ),
            ),
          ),
        ),
      )

  -- While the stale guard refuses, GET, MGET, HGET, HGETALL and the extended reads, in any case and with any
  -- arguments, give the guard's error and leave the server as it is.
  pub handle_command-stale :
      (name : Bytes) (args : List Bytes) (s : Server S) (e : Stale)
      → stale_refused s.stale_guard now ≡ some e
      → elem (to_upper name) guarded_reads ≡ true
      → handle_command os xxhash show st fuel now select extended (name ∷ args) s
        ≡ (s, err (stale e))
  unfolding handle_command
  handle_command-stale name args s e refused m =
      All-elem (Refused name args s e) (to_upper name) guarded_reads
        (guarded-Refused name args s e refused) m
