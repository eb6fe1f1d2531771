-- ===== src/Auth/AclFile/Switch.antt =====
-- The on/off switch of parseACLLine, and what is left when a command is revoked.
use wavicle.Prelude.{
  ok, >>=-eq-ok, Bytes, codes, ◌≡◌, ◌≢◌, refl, ap, ◌∙◌, ◌↔◌, ◌⊎◌, inl, inr, Bool, true, false, ◌==◌,
  ==_iff, ==_refl, bytes_eq, none, List, [], ◌∷◌, ◌++◌, arith, Bool-cases, All, if◌then◌else◌,
  insert, delete, lookup, bytes_beq, has_prefix, trim_prefix, to_upper,
}
use wavicle.Auth.{User, authorize}
use wavicle.Auth.AclFile.{
  Line, bad_selector, fresh_user, set_token, parse_token, parse_tokens, parse_fields,
}

-- The last token among `on`, `off` and `reset` is `on`.
abbrev pub EndsOn : List Bytes → Type 0
EndsOn toks =
    (before : List Bytes) × (after : List Bytes) × (toks ≡ before ++ codes "on" ∷ after)
    × All (λ t. (t ≢ codes "off") × (t ≢ codes "reset")) after

-- The switch as the loop keeps it.
flip : Bool → Bytes → Bool
flip b t =
    if t == codes "on"
    then true
    else if t == codes "off"
    then false
    else if t == codes "reset"
    then false
    else b

switch : Bool → List Bytes → Bool
switch b [] = b
switch b (t ∷ ts) = switch (flip b t) ts

abbrev Quiet : List Bytes → Type 0
Quiet = All (λ t. (t ≢ codes "off") × (t ≢ codes "reset"))

flip_kept :
    (b : Bool) (t : Bytes)
    → flip b t ≡ true
    → (t == codes "on") ≡ false
    → (b ≡ true) × (t ≢ codes "off") × (t ≢ codes "reset")
unfolding flip
flip_kept b t h n =
    let m : (t == codes "off") ≡ false = ground arith in
    let k : (t == codes "reset") ≡ false = ground arith in
    (ground arith, ground (arith, ==_iff t (codes "off")), ground (arith, ==_iff t (codes "reset")))

switch_on :
    (b : Bool) (toks : List Bytes) → switch b toks ≡ true → ((b ≡ true) × Quiet toks) ⊎ EndsOn toks
unfolding switch
switch_on b [] h = inl (h, tt)
switch_on b (t ∷ ts) h = elim (switch_on (flip b t) ts h) [
  | inr (before, after, e, quiet) ↦ inr (t ∷ before, after, ap (◌∷◌ t) e, quiet)
  | inl (kept, quiet) ↦ elim (Bool-cases (t == codes "on")) [
    | inl e ↦ inr ([], ts, ap (λ x. x ∷ ts) ((==_iff t (codes "on")).0 e), quiet)
    | inr n ↦ let (was, off, reset) = flip_kept b t kept n in inl (was, ((off, reset), quiet))
  ]
]

switch-Quiet : (toks : List Bytes) → Quiet toks → switch true toks ≡ true
unfolding switch flip
switch-Quiet [] h = refl
switch-Quiet (t ∷ ts) h =
    ground (arith, ==_iff t (codes "off"), ==_iff t (codes "reset"), switch-Quiet ts h.1)

switch_ends_on :
    (b : Bool) (before after : List Bytes)
    → Quiet after
    → switch b (before ++ codes "on" ∷ after) ≡ true
unfolding switch
switch_ends_on b [] after h = unfold flip bytes_beq in switch-Quiet after h
switch_ends_on b (t ∷ before) after h = switch_ends_on (flip b t) before after h

switch_iff : (toks : List Bytes) → (switch false toks ≡ true) ↔ EndsOn toks
switch_iff toks = (
  λ h. elim (switch_on false toks h) [ inl (e, _) ↦ cc e | inr e ↦ e ],
  λ (before, after, e, quiet). rw e (switch_ends_on false before after quiet),
)

-- `+c` and `-c` name a plain command
abbrev pub IsPlain : Bytes → Type 0
IsPlain c = (c ≢ codes "@all") × (bad_selector (to_upper c) ≡ false)

module _ (sha256 : Bytes → Bytes) where
  set_token-name :
      (t : Bytes) (u : User) {u' : User} → set_token sha256 t u ≡ ok u' → u'.name ≡ u.name
  unfolding set_token
  set_token-name t u h = ground arith

  parse_token-flip :
      (t : Bytes) (u : User) (on : Bool) {l : Line}
      → parse_token sha256 t (u, on) ≡ ok l
      → (l.1 ≡ flip on t) × (l.0.name ≡ u.name)
  unfolding parse_token flip
  parse_token-flip t u on h = ground (arith, set_token-name t u)

  parse_tokens-switch :
      (ts : List Bytes) (u : User) (on : Bool) {l : Line}
      → parse_tokens sha256 ts (u, on) ≡ ok l
      → (l.1 ≡ switch on ts) × (l.0.name ≡ u.name)
  unfolding parse_tokens switch
  parse_tokens-switch [] u on h = ground arith
  parse_tokens-switch (t ∷ ts) u on {l} h =
      let ((u', on'), now, later) =
        >>=-eq-ok (parse_token sha256 t (u, on)) (parse_tokens sha256 ts) h in
      let (flipped, named) = parse_token-flip t u on now in
      let (switched, names) = parse_tokens-switch ts u' on' later in
      (switched ∙ ap (λ b. switch b ts) flipped, names ∙ named)

  -- what the loop ended with on a line that parses
  parse_fields_inv :
      (word name : Bytes) (toks : List Bytes) {n : Bytes} {u : User}
      → parse_fields sha256 (word ∷ name ∷ toks) ≡ ok (n, u)
      → (l : Line) × (parse_tokens sha256 toks (fresh_user name, false) ≡ ok l)
        × ((word == codes "user") ≡ true)
        × (n ≡ name)
        × (u.name ≡ l.0.name)
        × (u.on ≡ l.1)
  unfolding parse_fields
  parse_fields_inv word name toks h = ground arith

  -- A line that parses defines the user of its second field, and switches that user on exactly
  -- when the last token among `on`, `off` and `reset` is `on`: without one the user is off.
  parse_fields-on :
      (word name : Bytes) (toks : List Bytes) {n : Bytes} {u : User}
      → parse_fields sha256 (word ∷ name ∷ toks) ≡ ok (n, u)
      → (word ≡ codes "user") × (n ≡ name) × (u.name ≡ name) × ((u.on ≡ true) ↔ EndsOn toks)
  parse_fields-on word name toks h =
      let (l, parsed, user, named, kept, switched) = parse_fields_inv word name toks h in
      let (flips, same) = parse_tokens-switch toks (fresh_user name) false parsed in
      let e = switched ∙ flips in
      ((==_iff word (codes "user")).0 user, named, kept ∙ same, rw e (switch_iff toks))

  plus_token :
      (c : Bytes) (u : User)
      → IsPlain c
      → set_token sha256 (b'+' ∷ c) u
        ≡ ok (record u { commands = insert (to_upper c) true u.commands })
  unfolding set_token has_prefix trim_prefix bytes_beq
  plus_token c u (n, plain) = ground (arith, ==_iff c (codes "@all"))

  minus_token :
      (c : Bytes) (u : User)
      → IsPlain c
      → set_token sha256 (b'-' ∷ c) u ≡ ok (record u { commands = delete (to_upper c) u.commands })
  unfolding set_token has_prefix trim_prefix bytes_beq
  minus_token c u (n, plain) = ground (arith, ==_iff c (codes "@all"))

  abbrev revoked : Bytes → User
  revoked name = record (fresh_user name) { on = true }

  allow_then_revoke :
      (name c : Bytes)
      → name ≢ []
      → IsPlain c
      → parse_fields sha256 (codes "user" ∷ name ∷ codes "on" ∷ (b'+' ∷ c) ∷ (b'-' ∷ c) ∷ [])
        ≡ ok (name, revoked name)
  unfolding parse_fields bytes_beq parse_token delete insert
  allow_then_revoke [] c n plain = absurd (n refl)
  allow_then_revoke (x ∷ name) c n plain = ground (
    arith,
    plus_token c (fresh_user (x ∷ name)) plain,
    minus_token c (record (fresh_user (x ∷ name)) { commands = (to_upper c, true) ∷ [] }) plain,
    ==_refl (to_upper c),
  )

  -- Revoking the only command that a user was given leaves that user unrestricted: the line
  -- `user name on +c -c` defines a user whom Authorize lets run every command on every key.
  pub authorize-revoked :
      (name c : Bytes)
      → name ≢ []
      → IsPlain c
      → (u : User) × (parse_fields sha256
            (codes "user" ∷ name ∷ codes "on" ∷ (b'+' ∷ c) ∷ (b'-' ∷ c) ∷ [])
          ≡ ok (name, u))
        × ((cmd key : Bytes)
            → authorize (record { users = (name, u) ∷ []; enabled = true }) name cmd key ≡ none)
  unfolding authorize lookup
  authorize-revoked name c n plain =
      (revoked name, allow_then_revoke name c n plain, λ cmd key. ground (arith, ==_refl name))
