-- ===== src/Server/Connection/Replies.antt =====
-- The replies that a connection's commands get.
use wavicle.Prelude.{
  ℕ, suc, ◌≡◌, refl, ap, Bool, Bool-cases, Option-cases, Option, none, some, All, ==_iff, if_cases,
  Bytes, bytes_beq, codes, true, false, ◌&&◌, not, ◌==◌, bytes_eq, if◌then◌else◌, List, [], ◌∷◌,
  length, to_upper, ◌⊎◌, inl, inr,
}
use wavicle.Server.Connection.{
  Reply, array, reply_of, Connection, Gate, check_keys, accepts, log_in, auth, head_of, multi,
  discard, enqueue, execute, exec_queue, exec, live, serve,
}

-- whether a reply is the header of EXEC's array
abbrev pub is_header : Reply → Bool
is_header (array n) = true
is_header _ = false

-- one reply that is no header; or a header with a number, and as many replies behind it that are none
abbrev pub IsFramed : Option ℕ → List Reply → Type 0
IsFramed none rs = (r : Reply) × (rs ≡ r ∷ []) × (is_header r ≡ false)
IsFramed (some n) rs =
    (qs : List Reply) × (rs ≡ array n ∷ qs) × (length qs ≡ n) × All (λ q. is_header q ≡ false) qs

-- the frame that a command is due
abbrev pub frame : Bytes → Connection → Option ℕ
frame name c = if to_upper name == codes "EXEC" && c.in_multi then some (length c.queue) else none

single : (r : Reply) → is_header r ≡ false → IsFramed none (r ∷ [])
single r h = (r, refl, h)

log_in-IsFramed :
    (sha256 : Bytes → Bytes) (g : Gate) (user pass : Bytes) (c : Connection)
    → IsFramed none (log_in sha256 g user pass c).1
unfolding log_in
log_in-IsFramed sha256 g user pass c =
    if_cases (λ (r : Connection × List Reply). IsFramed none r.1) (accepts sha256 g user pass) _ _
      (single _ refl) (single _ refl)

auth-IsFramed :
    (sha256 : Bytes → Bytes) (g : Gate) (args : List Bytes) (c : Connection)
    → IsFramed none (auth sha256 g args c).1
unfolding auth
auth-IsFramed sha256 g [] c = single _ refl
auth-IsFramed sha256 g (pass ∷ []) c = log_in-IsFramed sha256 g (codes "default") pass c
auth-IsFramed sha256 g (user ∷ pass ∷ _) c = log_in-IsFramed sha256 g user pass c

enqueue-IsFramed :
    (g : Gate) (args : List Bytes) (c : Connection) → IsFramed none (enqueue g args c).1
unfolding enqueue
enqueue-IsFramed g args c = elim (Option-cases (check_keys g c (head_of args) args)) [
  | inl n ↦ rw (n, enqueue) (single _ refl)
  | inr (d, m) ↦ rw (m, enqueue) (single _ refl)
]

multi-IsFramed : (c : Connection) → IsFramed none (multi c).1
unfolding multi
multi-IsFramed c =
    if_cases (λ (r : Connection × List Reply). IsFramed none r.1) c.in_multi _ _ (single _ refl)
      (single _ refl)

discard-IsFramed : (c : Connection) → IsFramed none (discard c).1
unfolding discard
discard-IsFramed c =
    if_cases (λ (r : Connection × List Reply). IsFramed none r.1) c.in_multi _ _ (single _ refl)
      (single _ refl)

module _ {S : Type 0} (sha256 : Bytes → Bytes) (handle : List Bytes → S → S × (Bytes ⊎ Bytes)) where
  execute-is_header :
      (args : List Bytes) (s : S) → is_header (execute sha256 handle args s).1 ≡ false
  execute-is_header args s =
      elim (handle args s).1 as (λ o. is_header (reply_of sha256 handle o) ≡ false) [
        | inl message ↦ refl
        | inr resp ↦ refl
      ]

  -- EXEC writes one reply for each queued command.
  exec_queue-replies :
      (g : Gate) (c : Connection) (qs : List (List Bytes)) (s : S)
      → let rs = (exec_queue sha256 handle g c qs s).1 in
        (length rs ≡ length qs) × All (λ q. is_header q ≡ false) rs
  unfolding exec_queue
  exec_queue-replies g c [] s = (refl, tt)
  exec_queue-replies g c (q ∷ qs) s = elim (Option-cases (check_keys g c (head_of q) q)) [
    | inl n ↦
        let (size, plain) = exec_queue-replies g c qs (execute sha256 handle q s).0 in
        rw (n, exec_queue) (ap suc size, (execute-is_header q s, plain))
    | inr (d, m) ↦
        let (size, plain) = exec_queue-replies g c qs s in
        rw (m, exec_queue) (ap suc size, (refl, plain))
  ]

  live-IsFramed :
      (g : Gate) (args : List Bytes) (c : Connection) (s : S)
      → IsFramed none (live sha256 handle g args c s).1
  unfolding live
  live-IsFramed g args c s =
      if_cases (λ (r : S × List Reply). IsFramed none r.1)
        (not c.authenticated && not (to_upper (head_of args) == codes "PING")) _ _ (single _ refl)
        (elim (Option-cases (check_keys g c (to_upper (head_of args)) args)) [
          | inl n ↦ rw n (single _ (execute-is_header args s))
          | inr (d, m) ↦ rw m (single _ refl)
        ])

  exec-IsFramed :
      (g : Gate) (c : Connection) (s : S)
      → IsFramed (if c.in_multi then some (length c.queue) else none) (exec sha256 handle g c s).2
  unfolding exec
  exec-IsFramed g c s = elim (Bool-cases c.in_multi) [
    | inl m ↦
        let (size, plain) = exec_queue-replies g c c.queue s in
        rw (m, exec) ((exec_queue sha256 handle g c c.queue s).1, refl, size, plain)
    | inr n ↦ rw (n, exec) (single _ refl)
  ]

  -- Every command gets exactly one reply, which is no array header of EXEC, except that EXEC inside a
  -- transaction gets first the header with the number of queued commands, and then that many replies,
  -- none of which is a header.
  pub serve-replies :
      (g : Gate) (name : Bytes) (rest : List Bytes) (c : Connection) (s : S)
      → IsFramed (frame name c) (serve sha256 handle g (name ∷ rest) c s).2
  unfolding serve bytes_beq
  serve-replies g name rest c s =
      let cmd = to_upper name in
      let apart : (t : Bytes)
          → (t == codes "EXEC") ≡ false
          → (cmd == t) ≡ true
          → frame name c ≡ none =
        λ t n e. (rw ((==_iff cmd t).0 e) (rw n refl)) in
      elim (Bool-cases (cmd == codes "MULTI")) [
        | inl m ↦ rw (apart (codes "MULTI") refl m) (rw m (multi-IsFramed c))
        | inr a ↦ elim (Bool-cases (cmd == codes "DISCARD")) [
          | inl m ↦ rw (apart (codes "DISCARD") refl m) (rw (a, m) (discard-IsFramed c))
          | inr b ↦ elim (Bool-cases (cmd == codes "EXEC")) [
            | inl m ↦ rw (a, b, m) (exec-IsFramed g c s)
            | inr d ↦
                rw (a, b, d)
                  (if_cases (λ (r : Connection × S × List Reply). IsFramed none r.2) c.in_multi _ _
                    (enqueue-IsFramed g (name ∷ rest) c)
                    (if_cases (λ (r : Connection × S × List Reply). IsFramed none r.2)
                      (cmd == codes "AUTH") _ _ (auth-IsFramed sha256 g rest c)
                      (live-IsFramed g (name ∷ rest) c s)))
          ]
        ]
      ]
