-- ===== src/Auth/Authorize.antt =====
-- What Authorize and Authenticate of internal/auth/acl.go permit.
use wavicle.Prelude.{
  Bytes, codes, ◌≡◌, ◌≢◌, refl, ◌↔◌, ◌⊎◌, inl, inr, Bool, true, false, ◌==◌, ==_iff, ==_refl,
  bytes_eq, none, some, List, [], ◌∷◌, ◌++◌, arith, Bool-cases, Option-cases, lookup, lookup-insert,
  has_prefix, has_suffix, trim_suffix, has_prefix→append, has_prefix-append, has_suffix-append,
  has_suffix→append, trim_suffix-append, to_upper, drop, length,
}
use wavicle.Auth.{
  User, Acl, flag, is_empty, match_pattern, any_pattern, check_user, authorize, new_user, add_user,
  authenticate,
}

-- A key pattern: `*`, the empty pattern, `prefix*`, or the key itself.
pub data PatternMatches (pat key : Bytes) : Type 0 where
  star : pat ≡ codes "*" → PatternMatches pat key
  blank : pat ≡ [] → PatternMatches pat key
  below : (q t : Bytes) → pat ≡ q ++ codes "*" → key ≡ q ++ t → PatternMatches pat key
  exact : pat ≡ key → PatternMatches pat key

is_empty→nil {ℓ} : {A : Type ℓ} (xs : List A) → is_empty xs ≡ true → xs ≡ []
is_empty→nil [] h = refl
is_empty→nil (x ∷ xs) h = ground arith

prefix_pattern :
    (pat key : Bytes)
    → has_suffix pat (codes "*") ≡ true
    → has_prefix key (trim_suffix pat (codes "*")) ≡ true
    → PatternMatches pat key
prefix_pattern pat key s p =
    let q = trim_suffix pat (codes "*") in
    below q (drop (length q) key) (has_suffix→append pat (codes "*") s) (has_prefix→append key q p)

match_pattern_sound : (pat key : Bytes) → match_pattern pat key ≡ true → PatternMatches pat key
unfolding match_pattern
match_pattern_sound pat key h = elim (Bool-cases (pat == codes "*")) [
  | inl e ↦ star ((==_iff pat (codes "*")).0 e)
  | inr a ↦ elim (Bool-cases (is_empty pat)) [
    | inl e ↦ blank (is_empty→nil pat e)
    | inr b ↦ elim (Bool-cases (has_suffix pat (codes "*"))) [
      | inl c ↦ prefix_pattern pat key c (ground (arith, a, b, c))
      | inr c ↦ exact ((==_iff pat key).0 (ground (arith, a, b, c)))
    ]
  ]
]

match_pattern-prefix : (q t : Bytes) → match_pattern (q ++ codes "*") (q ++ t) ≡ true
unfolding match_pattern
match_pattern-prefix q t = ground (
  arith,
  has_suffix-append q (codes "*"),
  trim_suffix-append q (codes "*"),
  has_prefix-append q t,
)

match_pattern_self : (key : Bytes) → match_pattern key key ≡ true
match_pattern_self key = elim (Bool-cases (has_suffix key (codes "*"))) [
  | inl s ↦
      let e = has_suffix→append key (codes "*") s in
      rw e (match_pattern-prefix (trim_suffix key (codes "*")) (codes "*"))
  | inr n ↦ unfold match_pattern in ground (arith, n, ==_refl key)
]

match_pattern_complete : (pat key : Bytes) → PatternMatches pat key → match_pattern pat key ≡ true
match_pattern_complete pat key (star e) =
    rw e (unfold match_pattern in ground (arith, ==_refl (codes "*")))
match_pattern_complete pat key (blank e) = rw e (unfold match_pattern in ground arith)
match_pattern_complete pat key (below q t e f) = rw (e, f) (match_pattern-prefix q t)
match_pattern_complete pat key (exact e) = rw e (match_pattern_self key)

-- One pattern of the list matches.
pub data SomePattern (key : Bytes) : List Bytes → Type 0 where
  first : {p : Bytes} (ps : List Bytes) → PatternMatches p key → SomePattern key (p ∷ ps)
  next : (p : Bytes) {ps : List Bytes} → SomePattern key ps → SomePattern key (p ∷ ps)

any_pattern_sound : (ps : List Bytes) (key : Bytes) → any_pattern ps key ≡ true → SomePattern key ps
unfolding any_pattern
any_pattern_sound [] key h = ground arith
any_pattern_sound (p ∷ ps) key h = elim (Bool-cases (match_pattern p key)) [
  | inl e ↦ first ps (match_pattern_sound p key e)
  | inr n ↦ next p (any_pattern_sound ps key (ground arith))
]

any_pattern_complete :
    (key : Bytes) {ps : List Bytes} → SomePattern key ps → any_pattern ps key ≡ true
unfolding any_pattern
any_pattern_complete key (first {p} ps m) = ground (arith, match_pattern_complete p key m)
any_pattern_complete key (next p m) = ground (arith, any_pattern_complete key m)

-- The command is on the user's list, the list has ALL, or it is empty.
abbrev pub CommandAllowed : User → Bytes → Type 0
CommandAllowed u cmd =
    (u.commands ≡ [])
    ⊎ ((flag (to_upper cmd) u.commands ≡ true) ⊎ (flag (codes "ALL") u.commands ≡ true))

-- There is no key, the user has no patterns, or one of them matches.
abbrev pub KeyAllowed : User → Bytes → Type 0
KeyAllowed u key = (key ≡ []) ⊎ ((u.key_patterns ≡ []) ⊎ SomePattern key u.key_patterns)

-- Who may run a command on a key.
pub data Permitted (a : Acl) (name cmd key : Bytes) : Type 0 where
  open_gate : a.enabled ≡ false → Permitted a name cmd key
  administrator :
      (u : User)
      → lookup name a.users ≡ some u
      → u.on ≡ true
      → u.admin ≡ true
      → Permitted a name cmd key
  restricted :
      (u : User)
      → lookup name a.users ≡ some u
      → u.on ≡ true
      → CommandAllowed u cmd
      → KeyAllowed u key
      → Permitted a name cmd key

command_sound :
    (u : User) (name cmd key : Bytes) → check_user u name cmd key ≡ none → CommandAllowed u cmd
unfolding check_user
command_sound u name cmd key h = elim (Bool-cases (is_empty u.commands)) [
  | inl e ↦ inl (is_empty→nil u.commands e)
  | inr n ↦ inr (ground arith)
]

key_sound : (u : User) (name cmd key : Bytes) → check_user u name cmd key ≡ none → KeyAllowed u key
unfolding check_user
key_sound u name cmd key h = elim (Bool-cases (is_empty key)) [
  | inl e ↦ inl (is_empty→nil key e)
  | inr n ↦ elim (Bool-cases (is_empty u.key_patterns)) [
    | inl e ↦ inr (inl (is_empty→nil u.key_patterns e))
    | inr m ↦ inr (inr (any_pattern_sound u.key_patterns key (ground arith)))
  ]
]

check_user_complete :
    (u : User) (name cmd key : Bytes)
    → CommandAllowed u cmd
    → KeyAllowed u key
    → check_user u name cmd key ≡ none
unfolding check_user
check_user_complete u name cmd key c (inl e) = ground arith
check_user_complete u name cmd key c (inr (inl e)) = ground arith
check_user_complete u name cmd key c (inr (inr p)) = ground (arith, any_pattern_complete key p)

authorize_sound :
    (a : Acl) (name cmd key : Bytes) → authorize a name cmd key ≡ none → Permitted a name cmd key
unfolding authorize
authorize_sound a name cmd key h = elim (Bool-cases a.enabled) [
  | inr e ↦ open_gate e
  | inl e ↦ elim (Option-cases (lookup name a.users)) [
    | inl n ↦ absurd (ground arith)
    | inr (u, f) ↦ elim (Bool-cases u.admin) [
      | inl m ↦ administrator u f (ground arith) m
      | inr m ↦
          let on : u.on ≡ true = ground arith in
          let checked : check_user u name cmd key ≡ none = ground arith in
          restricted u f on (command_sound u name cmd key checked)
            (key_sound u name cmd key checked)
    ]
  ]
]

authorize_complete :
    (a : Acl) (name cmd key : Bytes) → Permitted a name cmd key → authorize a name cmd key ≡ none
unfolding authorize
authorize_complete a name cmd key (open_gate e) = ground arith
authorize_complete a name cmd key (administrator u f on m) = ground arith
authorize_complete a name cmd key (restricted u f on c k) =
    ground (arith, check_user_complete u name cmd key c k)

-- Authorize returns no error exactly when the gate is not enabled, or the named user exists, is
-- switched on, and is an administrator or has both the command and the key allowed.
pub authorize_iff :
    (a : Acl) (name cmd key : Bytes) → (authorize a name cmd key ≡ none) ↔ Permitted a name cmd key
authorize_iff a name cmd key = (authorize_sound a name cmd key, authorize_complete a name cmd key)

module _ (sha256 : Bytes → Bytes) where
  -- After AddUser the new user logs in with the passwords that have the hash of the given one and
  -- with no other, and every other user logs in as before.
  authenticate-add_user :
      (a : Acl) (name password : Bytes) (commands key_patterns : List Bytes) (admin : Bool)
      (tried : Bytes)
      → let b = add_user sha256 a name password commands key_patterns admin in
        ((authenticate sha256 b name tried ≡ true) ↔ (sha256 password ≡ sha256 tried))
        × ((other : Bytes)
            → other ≢ name
            → authenticate sha256 b other tried ≡ authenticate sha256 a other tried)
  unfolding authenticate add_user
  authenticate-add_user a name password commands key_patterns admin tried =
      let u = new_user sha256 name password commands key_patterns admin in
      let same = ==_iff (sha256 password) (sha256 tried) in
      let stored = lookup-insert name name u a.users in
      (
        (
          λ h. same.0 (ground (arith, stored, ==_refl name)),
          λ e. ground (arith, stored, ==_refl name, same.1 e),
        ),
        λ other n. ground (arith, lookup-insert name other u a.users, ==_iff name other),
      )
