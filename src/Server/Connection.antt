-- ===== src/Server/Connection.antt =====
-- internal/protocol/resp3/server.go: the loop of handleConnection over the commands of a client,
-- with the transactions, the password gate and the access control that stand before HandleCommand.
-- HandleCommand is the parameter `handle`: it changes the server's state and answers a text or an
-- error. The replies are listed in the order in which they are written.
pub mod Guard
pub mod Bypass
pub mod Replies
use wavicle.Prelude.{
  ℕ, zero, suc, Bytes, codes, Bool, true, false, ◌&&◌, ◌||◌, not, ◌==◌, bytes_eq, if◌then◌else◌,
  Option, none, some, List, [], ◌∷◌, ◌++◌, length, take, elem, to_upper, ◌⊎◌, inl, inr,
}
use wavicle.Auth.{Acl, Denial, authorize, authenticate, is_empty}

-- What is written to the client.
pub data Reply : Type 0 where
  ok : Reply
  queued : Reply
  array : ℕ → Reply
  nested_multi : Reply
  discard_without_multi : Reply
  exec_without_multi : Reply
  auth_arity : Reply
  invalid_password : Reply
  authentication_required : Reply
  denied : Denial → Reply
  failed : Bytes → Reply
  text : Bytes → Reply

-- The variables of the loop.
pub record Connection : Type 0 where
  pub authenticated : Bool
  pub username : Bytes
  pub in_multi : Bool
  pub queue : List (List Bytes)

-- The fields of the server that the loop reads.
pub record Gate : Type 0 where
  pub password : Bytes
  pub acl : Option Acl

-- `s.acl != nil && s.acl.Enabled()`
abbrev pub guarded : Gate → Bool
guarded g = elim g.acl [ none ↦ false | some a ↦ a.enabled ]

unfoldable pub every_other : List Bytes → List Bytes
every_other [] = []
every_other (x ∷ []) = x ∷ []
every_other (x ∷ y ∷ xs) = x ∷ every_other xs

abbrev keyless : List Bytes
keyless =
    codes "PING"
    ∷ codes "DBSIZE"
    ∷ codes "INFO"
    ∷ codes "HELLO"
    ∷ codes "CLIENT"
    ∷ codes "CONFIG"
    ∷ codes "FLUSHDB"
    ∷ codes "FLUSHALL"
    ∷ codes "SCRIPT"
    ∷ codes "FUNCTION"
    ∷ codes "MULTI"
    ∷ codes "EXEC"
    ∷ codes "DISCARD"
    ∷ codes "SCAN"
    ∷ codes "KEYS"
    ∷ []

-- allKeys
unfoldable pub all_keys : List Bytes → List Bytes
unfolding every_other elem to_upper
all_keys [] = []
all_keys (name ∷ args) =
    let cmd = to_upper name in
    if is_empty args
    then []
    else if elem cmd keyless
    then []
    else if cmd == codes "MGET" || cmd == codes "DEL" || cmd == codes "EXISTS"
    then args
    else if cmd == codes "MSET"
    then every_other args
    else take 1 args

-- the loop over the keys, up to the first error
unfoldable pub first_denial : Acl → Bytes → Bytes → List Bytes → Option Denial
unfolding authorize
first_denial a name cmd [] = none
first_denial a name cmd (k ∷ ks) =
    let rest = first_denial a name cmd ks in
    elim (authorize a name cmd k) [ none ↦ rest | some d ↦ some d ]

-- the check of a command, in its three places
unfoldable pub check_keys : Gate → Connection → Bytes → List Bytes → Option Denial
unfolding first_denial all_keys
check_keys g c cmd args =
    if guarded g && c.authenticated
    then elim g.acl [ none ↦ none | some a ↦ first_denial a c.username cmd (all_keys args) ]
    else none

-- the start of a connection
unfoldable pub new_connection : Gate → Connection
new_connection g = record {
  authenticated = g.password == [] && not (guarded g);
  username = codes "default";
  in_multi = false;
  queue = [];
}

module _ (sha256 : Bytes → Bytes) where
  -- the test of AUTH
  unfoldable pub accepts : Gate → Bytes → Bytes → Bool
  unfolding authenticate
  accepts g user pass =
      if guarded g
      then elim g.acl [ none ↦ false | some a ↦ authenticate sha256 a user pass ]
      else g.password == [] || pass == g.password

  unfoldable pub log_in : Gate → Bytes → Bytes → Connection → Connection × List Reply
  unfolding accepts
  log_in g user pass c =
      if accepts g user pass
      then (record c { authenticated = true; username = user }, ok ∷ [])
      else (c, invalid_password ∷ [])

  -- AUTH, on the arguments after the name
  unfoldable pub auth : Gate → List Bytes → Connection → Connection × List Reply
  unfolding log_in
  auth g [] c = (c, auth_arity ∷ [])
  auth g (pass ∷ []) c = log_in g (codes "default") pass c
  auth g (user ∷ pass ∷ _) c = log_in g user pass c

abbrev pub head_of : List Bytes → Bytes
head_of [] = []
head_of (x ∷ _) = x

unfoldable pub multi : Connection → Connection × List Reply
multi c =
    if c.in_multi
    then (c, nested_multi ∷ [])
    else (record c { in_multi = true; queue = [] }, ok ∷ [])

unfoldable pub discard : Connection → Connection × List Reply
discard c =
    if c.in_multi
    then (record c { in_multi = false; queue = [] }, ok ∷ [])
    else (c, discard_without_multi ∷ [])

unfoldable pub enqueue : Gate → List Bytes → Connection → Connection × List Reply
unfolding check_keys
enqueue g args c = elim (check_keys g c (head_of args) args) [
  | some d ↦ (c, denied d ∷ [])
  | none ↦ (record c { queue = c.queue ++ args ∷ [] }, queued ∷ [])
]

module _ {S : Type 0} (sha256 : Bytes → Bytes) (handle : List Bytes → S → S × (Bytes ⊎ Bytes)) where
  abbrev pub reply_of : Bytes ⊎ Bytes → Reply
  reply_of (inl message) = failed message
  reply_of (inr resp) = text resp

  -- HandleCommand and its reply
  abbrev pub execute : List Bytes → S → S × Reply
  execute args s = let r = handle args s in (r.0, reply_of r.1)

  -- the loop of EXEC
  unfoldable pub exec_queue : Gate → Connection → List (List Bytes) → S → S × List Reply
  unfolding check_keys
  exec_queue g c [] s = (s, [])
  exec_queue g c (q ∷ qs) s = elim (check_keys g c (head_of q) q) [
    | some d ↦ (let rest = exec_queue g c qs s in (rest.0, denied d ∷ rest.1))
    | none ↦ (let r = execute q s in let rest = exec_queue g c qs r.0 in (rest.0, r.1 ∷ rest.1))
  ]

  unfoldable pub exec : Gate → Connection → S → Connection × S × List Reply
  unfolding exec_queue
  exec g c s =
      if not c.in_multi
      then (c, s, exec_without_multi ∷ [])
      else let r = exec_queue g c c.queue s in
        (record c { in_multi = false; queue = [] }, r.0, array (length c.queue) ∷ r.1)

  -- a command outside a transaction
  unfoldable pub live : Gate → List Bytes → Connection → S → S × List Reply
  unfolding check_keys to_upper
  live g args c s =
      let cmd = to_upper (head_of args) in
      if not c.authenticated && not (cmd == codes "PING")
      then (s, authentication_required ∷ [])
      else elim (check_keys g c cmd args) [
        | some d ↦ (s, denied d ∷ [])
        | none ↦ (let r = execute args s in (r.0, r.1 ∷ []))
      ]

  -- one round of the loop, on the arguments that readCommand gave
  unfoldable pub serve : Gate → List Bytes → Connection → S → Connection × S × List Reply
  unfolding multi discard exec enqueue auth live to_upper
  serve g [] c s = (c, s, [])
  serve g (name ∷ rest) c s =
      let cmd = to_upper name in
      if cmd == codes "MULTI"
      then (let r = multi c in (r.0, s, r.1))
      else if cmd == codes "DISCARD"
      then (let r = discard c in (r.0, s, r.1))
      else if cmd == codes "EXEC"
      then exec g c s
      else if c.in_multi
      then (let r = enqueue g (name ∷ rest) c in (r.0, s, r.1))
      else if cmd == codes "AUTH"
      then (let r = auth sha256 g rest c in (r.0, s, r.1))
      else (let r = live g (name ∷ rest) c s in (c, r.0, r.1))

  -- the loop, on all that the client sends
  unfoldable pub run : Gate → List (List Bytes) → Connection → S → Connection × S × List Reply
  unfolding serve
  run g [] c s = (c, s, [])
  run g (args ∷ more) c s =
      let r = serve g args c s in let rest = run g more r.0 r.1 in (rest.0, rest.1, r.2 ++ rest.2)
