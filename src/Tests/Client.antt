-- ===== src/Tests/Client.antt =====
-- The connections of internal/protocol/resp3/server.go, with a handler that logs its commands.
use wavicle.Prelude.{
  arith, none, Bytes, codes, bytes_beq, bytes_eq, ◌≡◌, refl, true, false, some, List, [], ◌∷◌, ◌++◌,
  All, elem, to_upper, ◌⊎◌, inr,
}
use wavicle.Auth.{User, Acl}
use wavicle.Server.Connection.{
  ok, queued, array, Connection, Gate, new_connection, accepts, head_of, execute, serve, run,
}
use wavicle.Server.Connection.Guard.{Allowed, serve-guarded}
use wavicle.Server.Connection.Replies.{IsFramed, serve-replies}
use wavicle.Server.Connection.Bypass.{PingKeeps, transaction-unauthenticated, run-locked}
use wavicle.Tests.{plain_hash}

abbrev Log : Type 0
Log = List (List Bytes)

abbrev logged : List Bytes → Log → Log × (Bytes ⊎ Bytes)
logged args log = (log ++ args ∷ [], inr (codes "+OK"))

-- A user with no right but GET on the keys below `user:`.
abbrev reader : User
reader = record {
  name = codes "ro";
  pass_sha256 = codes "pw";
  commands = (codes "GET", true) ∷ [];
  key_patterns = codes "user:*" ∷ [];
  admin = false;
  on = true;
}

abbrev users : Acl
users = record { users = (codes "ro", reader) ∷ []; enabled = true }

abbrev locked : Gate
locked = record { password = codes "secret"; acl = some users }

abbrev stranger : Connection
stranger = new_connection locked

abbrev member : Connection
member = record { authenticated = true; username = codes "ro"; in_multi = false; queue = [] }

abbrev set_admin : List Bytes
set_admin = codes "SET" ∷ codes "admin" ∷ codes "1" ∷ []

-- A server with a password and no access list, and a client that guesses wrong.
abbrev closed : Gate
closed = record { password = codes "secret"; acl = none }

abbrev guesses : List (List Bytes)
guesses = (codes "auth" ∷ codes "guess" ∷ []) ∷ set_admin ∷ (codes "ping" ∷ []) ∷ []

-- Only what the reader may do stands in the log.
abbrev Permitted : Log → Type 0
Permitted = All (Allowed users (codes "ro"))

Permitted-append :
    (log : Log) (args : List Bytes)
    → Permitted log
    → Allowed users (codes "ro") args
    → Permitted (log ++ args ∷ [])
Permitted-append [] args p a = (a, tt)
Permitted-append (x ∷ log) args (h, p) a = (h, Permitted-append log args p a)

pings-append : PingKeeps plain_hash logged (All (λ args. to_upper (head_of args) ≡ codes "PING"))
pings-append args [] e p = (e, tt)
pings-append args (x ∷ log) e (h, p) = (h, pings-append args log e p)

serve-guarded_example : Permitted (serve plain_hash logged locked set_admin member []).1
serve-guarded_example =
    serve-guarded plain_hash logged locked users member Permitted set_admin [] refl refl refl
      (λ args log allowed p. Permitted-append log args p allowed) tt

-- The reader in a transaction, with one command in the queue.
abbrev waiting : Connection
waiting = record member { in_multi = true; queue = (codes "PING" ∷ []) ∷ [] }

serve-replies_example :
    IsFramed (some 1) (serve plain_hash logged locked (codes "exec" ∷ []) waiting []).2
unfolding to_upper bytes_beq
serve-replies_example = serve-replies plain_hash logged locked (codes "exec") [] waiting []

transaction-unauthenticated_example :
    let out =
      run plain_hash logged locked
        ((codes "MULTI" ∷ []) ∷ set_admin ∷ (codes "EXEC" ∷ []) ∷ [])
        stranger
        [] in
    (out.0.authenticated ≡ false)
    × (out.1 ≡ set_admin ∷ [])
    × (out.2 ≡ ok ∷ queued ∷ array 1 ∷ (execute plain_hash logged set_admin []).1 ∷ [])
unfolding new_connection bytes_beq elem to_upper
transaction-unauthenticated_example =
    transaction-unauthenticated plain_hash logged locked stranger (codes "SET")
      (codes "admin" ∷ codes "1" ∷ []) [] refl refl refl

run-locked_example :
    ((run plain_hash logged closed guesses stranger []).0 ≡ stranger)
    × All
        (λ args. to_upper (head_of args) ≡ codes "PING")
        (run plain_hash logged closed guesses stranger []).1
unfolding new_connection accepts bytes_beq to_upper
run-locked_example =
    run-locked plain_hash logged closed stranger
      (All (λ args. to_upper (head_of args) ≡ codes "PING")) guesses [] refl refl pings-append
      ((
        (refl, λ e. refl),
        ((refl, λ e. absurd (ground (arith, e))), ((refl, λ e. absurd (ground (arith, e))), tt)),
      ))
      tt
