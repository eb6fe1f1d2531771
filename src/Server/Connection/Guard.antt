-- ===== src/Server/Connection/Guard.antt =====
-- What stands between a client and HandleCommand.
use wavicle.Prelude.{
  ◌≡◌, refl, sym, ap, ◌∙◌, arith, Option-cases, All, All-weaken, if_cases, Bytes, codes, true, not,
  ◌==◌, bytes_eq, none, some, List, [], ◌∷◌, to_upper, to_upper-to_upper, ◌⊎◌, inl, inr,
}
use wavicle.Auth.{Acl, authorize}
use wavicle.Server.Connection.{
  Reply, Connection, Gate, all_keys, first_denial, check_keys, head_of, exec_queue, exec, live,
  serve,
}

-- Every key of the command is permitted to the user.
abbrev pub Allowed : Acl → Bytes → List Bytes → Type 0
Allowed a name args = All (λ k. authorize a name (to_upper (head_of args)) k ≡ none) (all_keys args)

authorize_upper :
    (a : Acl) (name cmd key : Bytes)
    → authorize a name cmd key ≡ authorize a name (to_upper cmd) key
unfolding authorize
authorize_upper a name cmd key = ground (arith, to_upper-to_upper cmd)

first_denial-none :
    (a : Acl) (name cmd : Bytes) (ks : List Bytes)
    → first_denial a name cmd ks ≡ none
    → All (λ k. authorize a name cmd k ≡ none) ks
unfolding first_denial
first_denial-none a name cmd [] h = tt
first_denial-none a name cmd (k ∷ ks) h = elim (Option-cases (authorize a name cmd k)) [
  | inl n ↦ (n, first_denial-none a name cmd ks (ground arith))
  | inr (d, m) ↦ absurd (ground arith)
]

check_keys-Allowed :
    (g : Gate) (a : Acl) (c : Connection) (cmd : Bytes) (args : List Bytes)
    → g.acl ≡ some a
    → a.enabled ≡ true
    → c.authenticated ≡ true
    → to_upper cmd ≡ to_upper (head_of args)
    → check_keys g c cmd args ≡ none
    → Allowed a c.username args
unfolding check_keys
check_keys-Allowed g a c cmd args present on in_ same h =
    let granted : first_denial a c.username cmd (all_keys args) ≡ none = ground arith in
    All-weaken
      (λ k e.
        ap (λ n. authorize a c.username n k) (sym same)
        ∙ sym (authorize_upper a c.username cmd k)
        ∙ e)
      (all_keys args) (first_denial-none a c.username cmd (all_keys args) granted)

module _ {S : Type 0} (sha256 : Bytes → Bytes) (handle : List Bytes → S → S × (Bytes ⊎ Bytes)) where
  -- What a command may do to the state, if the user may run it on every key.
  abbrev pub Keeps : Acl → Bytes → (S → Type 0) → Type 0
  Keeps a name I = (args : List Bytes) (s : S) → Allowed a name args → I s → I (handle args s).0

  exec_queue-guarded :
      (g : Gate) (a : Acl) (c : Connection) (I : S → Type 0) (qs : List (List Bytes)) (s : S)
      → g.acl ≡ some a
      → a.enabled ≡ true
      → c.authenticated ≡ true
      → Keeps a c.username I
      → I s
      → I (exec_queue sha256 handle g c qs s).0
  unfolding exec_queue
  exec_queue-guarded g a c I [] s present on in_ keeps i = i
  exec_queue-guarded g a c I (q ∷ qs) s present on in_ keeps i =
      elim (Option-cases (check_keys g c (head_of q) q)) [
        | inr (d, m) ↦ rw (m, exec_queue) (exec_queue-guarded g a c I qs s present on in_ keeps i)
        | inl n ↦
            let allowed = check_keys-Allowed g a c (head_of q) q present on in_ refl n in
            rw (n, exec_queue)
              (exec_queue-guarded g a c I qs (handle q s).0 present on in_ keeps
                (keeps q s allowed i))
      ]

  live-guarded :
      (g : Gate) (a : Acl) (c : Connection) (I : S → Type 0) (args : List Bytes) (s : S)
      → g.acl ≡ some a
      → a.enabled ≡ true
      → c.authenticated ≡ true
      → Keeps a c.username I
      → I s
      → I (live sha256 handle g args c s).0
  unfolding live
  live-guarded g a c I args s present on in_ keeps i =
      let cmd = to_upper (head_of args) in
      elim (Option-cases (check_keys g c cmd args)) [
        | inr (d, m) ↦ rw (m, in_, live) i
        | inl n ↦
            let allowed =
              check_keys-Allowed g a c cmd args present on in_ (to_upper-to_upper _) n in
            rw (n, in_, live) (keeps args s allowed i)
      ]

  -- On an authenticated connection under an enabled access list, one round of the loop keeps
  -- every property of the server's state that HandleCommand keeps on the commands whose keys are
  -- all permitted to the connection's user: no other command reaches the state, live or by EXEC.
  pub serve-guarded :
      (g : Gate) (a : Acl) (c : Connection) (I : S → Type 0) (args : List Bytes) (s : S)
      → g.acl ≡ some a
      → a.enabled ≡ true
      → c.authenticated ≡ true
      → Keeps a c.username I
      → I s
      → I (serve sha256 handle g args c s).1
  unfolding serve exec
  serve-guarded g a c I [] s present on in_ keeps i = i
  serve-guarded g a c I (name ∷ rest) s present on in_ keeps i =
      let cmd = to_upper name in
      let P = λ (r : Connection × S × List Reply). I r.1 in
      let queued_up = exec_queue-guarded g a c I c.queue s present on in_ keeps i in
      let at_once = live-guarded g a c I (name ∷ rest) s present on in_ keeps i in
      if_cases P (cmd == codes "MULTI") _ _ i (
        if_cases P (cmd == codes "DISCARD") _ _ i (
          if_cases P (cmd == codes "EXEC") _ _ (if_cases P (not c.in_multi) _ _ i queued_up)
            (if_cases P c.in_multi _ _ i (if_cases P (cmd == codes "AUTH") _ _ i at_once))))
