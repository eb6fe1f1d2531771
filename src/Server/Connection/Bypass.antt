-- ===== src/Server/Connection/Bypass.antt =====
-- Commands that reach HandleCommand past the password gate or the access list.
use wavicle.Prelude.{
  ◌≡◌, refl, arith, Option-cases, ==_iff, ==_comm, All, if_cases, if_split, if_cases, Bytes,
  bytes_beq, codes, true, false, ◌&&◌, not, ◌==◌, bytes_eq, none, List, [], ◌∷◌, ◌++◌, elem,
  to_upper, ◌⊎◌, inl, inr,
}
use wavicle.Server.Connection.{
  Reply, ok, queued, array, exec_without_multi, Connection, Gate, all_keys, first_denial,
  check_keys, accepts, log_in, auth, head_of, multi, discard, enqueue, execute, exec_queue, exec,
  live, serve, run,
}

-- The commands that the loop answers itself.
abbrev pub framing : List Bytes
framing = codes "MULTI" ∷ codes "DISCARD" ∷ codes "EXEC" ∷ []

unguarded :
    (g : Gate) (c : Connection) (cmd : Bytes) (args : List Bytes)
    → c.authenticated ≡ false
    → check_keys g c cmd args ≡ none
unfolding check_keys
unguarded g c cmd args out = ground arith

no_keys :
    (g : Gate) (c : Connection) (cmd : Bytes) (args : List Bytes)
    → all_keys args ≡ []
    → check_keys g c cmd args ≡ none
unfolding check_keys first_denial
no_keys g c cmd args h = elim (Option-cases g.acl) [
  | inl n ↦ ground arith
  | inr (a, m) ↦ ground arith
]

enqueued :
    (g : Gate) (c : Connection) (name : Bytes) (rest : List Bytes)
    → c.authenticated ≡ false
    → enqueue g (name ∷ rest) c ≡ (record c { queue = c.queue ++ (name ∷ rest) ∷ [] }, queued ∷ [])
unfolding enqueue
enqueued g c name rest out = rw (unguarded g c name (name ∷ rest) out, enqueue) refl

module _ {S : Type 0} (sha256 : Bytes → Bytes) (handle : List Bytes → S → S × (Bytes ⊎ Bytes)) where
  begun :
      (g : Gate) (c : Connection) (s : S)
      → c.in_multi ≡ false
      → serve sha256 handle g (codes "MULTI" ∷ []) c s
        ≡ (record c { in_multi = true; queue = [] }, s, ok ∷ [])
  unfolding serve multi to_upper bytes_beq
  begun g c s idle = rw (idle, multi) refl

  queued_up :
      (g : Gate) (c : Connection) (name : Bytes) (rest : List Bytes) (s : S)
      → c.authenticated ≡ false
      → c.in_multi ≡ true
      → elem (to_upper name) framing ≡ false
      → serve sha256 handle g (name ∷ rest) c s
        ≡ (record c { queue = c.queue ++ (name ∷ rest) ∷ [] }, s, queued ∷ [])
  unfolding serve elem
  queued_up g c name rest s out open_ plain =
      let a : (to_upper name == codes "MULTI") ≡ false =
        ground (arith, ==_comm (to_upper name) (codes "MULTI")) in
      let b : (to_upper name == codes "DISCARD") ≡ false =
        ground (arith, ==_comm (to_upper name) (codes "DISCARD")) in
      let d : (to_upper name == codes "EXEC") ≡ false =
        ground (arith, ==_comm (to_upper name) (codes "EXEC")) in
      let e = enqueued g c name rest out in simp (a, b, d, open_, e) refl

  executed :
      (g : Gate) (c : Connection) (args : List Bytes) (s : S)
      → c.authenticated ≡ false
      → c.in_multi ≡ true
      → c.queue ≡ args ∷ []
      → serve sha256 handle g (codes "EXEC" ∷ []) c s ≡ (
        record c { in_multi = false; queue = [] },
        (handle args s).0,
        array 1 ∷ (execute sha256 handle args s).1 ∷ [],
      )
  unfolding serve exec exec_queue to_upper bytes_beq
  executed g c args s out open_ held =
      rw (open_, held, exec, exec_queue) (rw (unguarded g c (head_of args) args out) refl)

  -- Without a login, and whatever the password and the access list: after MULTI, any command but
  -- the three of transactions, and EXEC, HandleCommand has run that command on the state.
  pub transaction-unauthenticated :
      (g : Gate) (c : Connection) (name : Bytes) (rest : List Bytes) (s : S)
      → c.authenticated ≡ false
      → c.in_multi ≡ false
      → elem (to_upper name) framing ≡ false
      → let out =
          run sha256 handle g
            ((codes "MULTI" ∷ []) ∷ (name ∷ rest) ∷ (codes "EXEC" ∷ []) ∷ [])
            c
            s in
        (out.0.authenticated ≡ false)
        × (out.1 ≡ (handle (name ∷ rest) s).0)
        × (out.2 ≡ ok ∷ queued ∷ array 1 ∷ (execute sha256 handle (name ∷ rest) s).1 ∷ [])
  unfolding run
  transaction-unauthenticated g c name rest s out idle plain =
      let c1 = record c { in_multi = true; queue = [] } in
      let c2 = record c1 { queue = (name ∷ rest) ∷ [] } in
      rw
        (
          begun g c s idle,
          queued_up g c1 name rest s out refl plain,
          executed g c2 (name ∷ rest) s out refl refl,
        )
        (out, refl, refl)

  live_keyless :
      (g : Gate) (c : Connection) (args : List Bytes) (s : S)
      → c.authenticated ≡ true
      → all_keys args ≡ []
      → live sha256 handle g args c s ≡ ((handle args s).0, (execute sha256 handle args s).1 ∷ [])
  unfolding live
  live_keyless g c args s in_ keys =
      rw (no_keys g c (to_upper (head_of args)) args keys, in_, live) refl

  -- Outside a transaction, on an authenticated connection: a command that allKeys finds no key in
  -- runs at once, whatever the access list says of the user and of the command.
  serve-keyless :
      (g : Gate) (c : Connection) (name : Bytes) (rest : List Bytes) (s : S)
      → c.authenticated ≡ true
      → c.in_multi ≡ false
      → elem (to_upper name) (codes "AUTH" ∷ framing) ≡ false
      → all_keys (name ∷ rest) ≡ []
      → serve sha256 handle g (name ∷ rest) c s
        ≡ (c, (handle (name ∷ rest) s).0, (execute sha256 handle (name ∷ rest) s).1 ∷ [])
  unfolding serve elem
  serve-keyless g c name rest s in_ idle plain keys =
      let a : (to_upper name == codes "MULTI") ≡ false =
        ground (arith, ==_comm (to_upper name) (codes "MULTI")) in
      let b : (to_upper name == codes "DISCARD") ≡ false =
        ground (arith, ==_comm (to_upper name) (codes "DISCARD")) in
      let d : (to_upper name == codes "EXEC") ≡ false =
        ground (arith, ==_comm (to_upper name) (codes "EXEC")) in
      let e : (to_upper name == codes "AUTH") ≡ false =
        ground (arith, ==_comm (to_upper name) (codes "AUTH")) in
      let l = live_keyless g c (name ∷ rest) s in_ keys in simp (a, b, d, e, idle, l) refl

  -- what AUTH is asked to accept, which it refuses
  abbrev pub Refused : Gate → List Bytes → Type 0
  Refused g (cmd ∷ pass ∷ []) = accepts sha256 g (codes "default") pass ≡ false
  Refused g (cmd ∷ user ∷ pass ∷ _) = accepts sha256 g user pass ≡ false
  Refused g _ = Unit

  -- a command that is not MULTI, and that AUTH refuses if it is AUTH
  abbrev pub IsLockedOut : Gate → List Bytes → Type 0
  IsLockedOut g args =
      ((to_upper (head_of args) == codes "MULTI") ≡ false)
      × ((to_upper (head_of args) == codes "AUTH") ≡ true → Refused g args)

  auth-Refused :
      (g : Gate) (name : Bytes) (args : List Bytes) (c : Connection)
      → Refused g (name ∷ args)
      → (auth sha256 g args c).0 ≡ c
  unfolding auth log_in
  auth-Refused g name [] c wrong = refl
  auth-Refused g name (pass ∷ []) c wrong = rw wrong refl
  auth-Refused g name (user ∷ pass ∷ _) c wrong = rw wrong refl

  -- What PING may do to the state.
  abbrev pub PingKeeps : (S → Type 0) → Type 0
  PingKeeps I =
      (args : List Bytes) (s : S)
      → to_upper (head_of args) ≡ codes "PING"
      → I s
      → I (handle args s).0

  discard-idle : (c : Connection) → c.in_multi ≡ false → (discard c).0 ≡ c
  unfolding discard
  discard-idle c idle =
      if_split (λ (r : Connection × List Reply). r.0 ≡ c) c.in_multi _ _
        (λ m. absurd (ground arith)) (λ n. refl)

  exec-idle :
      (g : Gate) (c : Connection) (s : S)
      → c.in_multi ≡ false
      → exec sha256 handle g c s ≡ (c, s, exec_without_multi ∷ [])
  unfolding exec
  exec-idle g c s idle =
      if_split (λ r. r ≡ (c, s, exec_without_multi ∷ [])) (not c.in_multi) _ _ (λ m. refl)
        (λ n. absurd (ground arith))

  live-locked :
      (g : Gate) (c : Connection) (I : S → Type 0) (args : List Bytes) (s : S)
      → c.authenticated ≡ false
      → PingKeeps I
      → I s
      → I (live sha256 handle g args c s).0
  unfolding live
  live-locked g c I args s out ping i =
      let cmd = to_upper (head_of args) in
      if_split (λ (r : S × List Reply). I r.0) (not c.authenticated && not (cmd == codes "PING")) _
        _ (λ m. i)
        (λ n.
          let named : (cmd == codes "PING") ≡ true = ground arith in
          rw (unguarded g c cmd args out) (ping args s ((==_iff cmd (codes "PING")).0 named) i))

  serve-locked :
      (g : Gate) (c : Connection) (I : S → Type 0) (args : List Bytes) (s : S)
      → c.authenticated ≡ false
      → c.in_multi ≡ false
      → PingKeeps I
      → IsLockedOut g args
      → I s
      → ((serve sha256 handle g args c s).0 ≡ c) × I (serve sha256 handle g args c s).1
  unfolding serve discard exec live
  serve-locked g c I [] s out idle ping single i = (refl, i)
  serve-locked g c I (name ∷ rest) s out idle ping (single, wrong) i =
      let cmd = to_upper name in
      let P = λ (r : Connection × S × List Reply). (r.0 ≡ c) × I r.1 in
      let stopped = exec-idle g c s idle in
      if_split P (cmd == codes "MULTI") _ _ (λ m. absurd (ground (arith, single)))
        (λ n.
          if_cases P (cmd == codes "DISCARD") _ _ (discard-idle c idle, i)
            (if_cases P (cmd == codes "EXEC") _ _ (rw stopped (refl, i)) (
              if_split P c.in_multi _ _ (λ m. absurd (ground arith))
                (λ m.
                  if_split P (cmd == codes "AUTH") _ _
                    (λ k. (auth-Refused g name rest c (wrong k), i))
                    (λ k. (refl, live-locked g c I (name ∷ rest) s out ping i))))))

  -- If the client sends no MULTI, and no AUTH with a user and a password, or a password for `default`,
  -- that are accepted, a connection outside a transaction that is not authenticated stays as it is, and
  -- its commands keep every property of the server's state that PING keeps: PING is all that reaches
  -- HandleCommand.
  pub run-locked :
      (g : Gate) (c : Connection) (I : S → Type 0) (sent : List (List Bytes)) (s : S)
      → c.authenticated ≡ false
      → c.in_multi ≡ false
      → PingKeeps I
      → All (IsLockedOut g) sent
      → I s
      → ((run sha256 handle g sent c s).0 ≡ c) × I (run sha256 handle g sent c s).1
  unfolding run
  run-locked g c I [] s out idle ping single i = (refl, i)
  run-locked g c I (args ∷ more) s out idle ping (one, rest) i =
      let (same, j) = serve-locked g c I args s out idle ping one i in
      rw same (run-locked g c I more (serve sha256 handle g args c s).1 out idle ping rest j)
