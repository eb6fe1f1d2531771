-- ===== src/Auth/AclFile/Load.antt =====
-- LoadACLFile of internal/auth/aclfile.go: which files load, and the users that result.
use wavicle.Prelude.{
  ok, err, ◌>>=◌, ℕ, suc, ◌+◌, ◌<◌, Bytes, ◌≡◌, refl, ◌∙◌, ◌⊎◌, inl, inr, true, false, ◌==◌,
  bytes_eq, nat_eq, Option, none, some, List, [], ◌∷◌, ◌++◌, arith, All, if◌then◌else◌, lookup,
  lookup-insert, insert, length, trim_space,
}
use wavicle.Auth.{User, Acl}
use wavicle.Auth.AclFile.{
  AclError, at_line, Result, parse_acl_line, skipped, load_lines, load_acl_file,
}

module _ (sha256 : Bytes → Bytes) where
  -- What a line says: nothing, a user, or an error.
  unfoldable pub line_result : Bytes → Result (Option (Bytes × User))
  line_result text =
      if skipped (trim_space text)
      then ok none
      else (do r ← parse_acl_line sha256 (trim_space text); ok (some r))

  abbrev pub IsFine : Bytes → Type 0
  IsFine text = (r : Option (Bytes × User)) × (line_result text ≡ ok r)

  -- The user that the last line for a name defines.
  unfoldable pub last_user : Bytes → List Bytes → Option User
  last_user name [] = none
  last_user name (text ∷ rest) =
      let later = last_user name rest in
      elim later [
        | some u ↦ some u
        | none ↦ elim (line_result text) [
          | ok (some (n, u)) ↦ if n == name then some u else none
          | _ ↦ none
        ]
      ]

  -- How many lines define a user.
  unfoldable pub user_lines : List Bytes → ℕ
  user_lines [] = 0
  user_lines (text ∷ rest) = elim (line_result text) [
    | ok (some _) ↦ suc (user_lines rest)
    | _ ↦ user_lines rest
  ]

  -- One round of the loop, by what its line says.
  load_lines-comment :
      (n users : ℕ) (text : Bytes) (rest : List Bytes) (a : Acl)
      → line_result text ≡ ok none
      → load_lines sha256 n users (text ∷ rest) a ≡ load_lines sha256 (n + 1) users rest a
  unfolding line_result load_lines
  load_lines-comment n users text rest a h = ground arith

  load_lines-user :
      (n users : ℕ) (text name : Bytes) (u : User) (rest : List Bytes) (a : Acl)
      → line_result text ≡ ok (some (name, u))
      → load_lines sha256 n users (text ∷ rest) a
        ≡ load_lines sha256
            (n + 1)
            (users + 1)
            rest
            (record { users = insert name u a.users; enabled = true })
  unfolding line_result load_lines
  load_lines-user n users text name u rest a h = ground arith

  load_lines-error :
      (n users : ℕ) (text : Bytes) (e : AclError) (rest : List Bytes) (a : Acl)
      → line_result text ≡ err e
      → load_lines sha256 n users (text ∷ rest) a ≡ err (at_line (n + 1) e)
  unfolding line_result load_lines
  load_lines-error n users text e rest a h = ground arith

  abbrev or_else : Option User → Option User → Option User
  or_else (some u) o = some u
  or_else none o = o

  -- What the loop returns from the accumulator `a`, with `users` counted so far.
  record Loaded (n users : ℕ) (lines : List Bytes) (a b : Acl) : Type 0 where
    runs : load_lines sha256 n users lines a ≡ ok (b, users + user_lines lines)
    entries :
        (name : Bytes) → lookup name b.users ≡ or_else (last_user name lines) (lookup name a.users)
    gate : (a.enabled ≡ true) ⊎ (0 < user_lines lines) → b.enabled ≡ true

  module _ (n users : ℕ) (text : Bytes) (rest : List Bytes) (a b : Acl) where
    Loaded-comment :
        line_result text ≡ ok none
        → Loaded (n + 1) users rest a b
        → Loaded n users (text ∷ rest) a b
    unfolding last_user user_lines
    Loaded-comment h l = record {
      runs =
          load_lines-comment n users text rest a h ∙ (unfold user_lines in ground (arith, l.runs));
      entries = λ name. ground (arith, l.entries name);
      gate = λ g. elim g [ inl e ↦ l.gate (inl e) | inr p ↦ l.gate (inr (ground arith)) ];
    }

    Loaded-user :
        (name : Bytes) (u : User)
        → line_result text ≡ ok (some (name, u))
        → Loaded
            (n + 1)
            (users + 1)
            rest
            (record { users = insert name u a.users; enabled = true })
            b
        → Loaded n users (text ∷ rest) a b
    unfolding last_user user_lines
    Loaded-user name u h l = record {
      runs =
          load_lines-user n users text name u rest a h
          ∙ (unfold user_lines in ground (arith, l.runs));
      entries = λ k. ground (arith, l.entries k, lookup-insert name k u a.users);
      gate = λ _. l.gate (inl refl);
    }

  Loaded-line :
      (n users : ℕ) (text : Bytes) (rest : List Bytes) (a : Acl)
      → ((m k : ℕ) (a' : Acl) → (b : Acl) × Loaded m k rest a' b)
      → IsFine text
      → (b : Acl) × Loaded n users (text ∷ rest) a b
  Loaded-line n users text rest a later (none, h) =
      let (b, l) = later (n + 1) users a in (b, Loaded-comment n users text rest a b h l)
  Loaded-line n users text rest a later (some (name, u), h) =
      let (b, l) =
        later (n + 1) (users + 1) (record { users = insert name u a.users; enabled = true }) in
      (b, Loaded-user n users text rest a b name u h l)

  load_lines-Loaded :
      (n users : ℕ) (lines : List Bytes) (a : Acl)
      → All IsFine lines
      → (b : Acl) × Loaded n users lines a b
  load_lines-Loaded n users [] a fine = (
    a,
    unfold load_lines last_user user_lines in
        record { runs = ground arith; entries = λ name. refl; gate = λ g. ground arith },
  )
  load_lines-Loaded n users (text ∷ rest) a (fine, more) =
      Loaded-line n users text rest a (λ m k a'. load_lines-Loaded m k rest a' more) fine

  lookup_nil : (name : Bytes) → lookup {V = User} name [] ≡ none
  unfolding lookup
  lookup_nil name = refl

  -- A file whose lines are all blank, comments or valid user lines, with at least one user line,
  -- loads; the gate is enabled, and each name has the user of its last line and no other.
  load_acl_file-fine :
      (lines : List Bytes)
      → All IsFine lines
      → 0 < user_lines lines
      → (a : Acl) × (load_acl_file sha256 lines ≡ ok a)
        × (a.enabled ≡ true)
        × ((name : Bytes) → lookup name a.users ≡ last_user name lines)
  unfolding load_acl_file
  load_acl_file-fine lines fine some_user =
      let (b, l) = load_lines-Loaded 0 0 lines (record { users = []; enabled = false }) fine in
      (
        b,
        rw l.runs (ground arith),
        l.gate (inr some_user),
        λ name. ground (arith, l.entries name, lookup_nil name),
      )

  load_lines-bad :
      (n users : ℕ) (good : List Bytes) (bad : Bytes) (rest : List Bytes) (a : Acl) {e : AclError}
      → All IsFine good
      → line_result bad ≡ err e
      → load_lines sha256 n users (good ++ bad ∷ rest) a ≡ err (at_line (n + length good + 1) e)
  load_lines-bad n users [] bad rest a fine h =
      load_lines-error n users bad _ rest a h ∙ ground arith
  load_lines-bad n users (text ∷ good) bad rest a ((none, f), more) h =
      load_lines-comment n users text _ a f
      ∙ load_lines-bad (n + 1) users good bad rest a more h
      ∙ ground arith
  load_lines-bad n users (text ∷ good) bad rest a ((some (name, u), f), more) h =
      load_lines-user n users text name u _ a f
      ∙ load_lines-bad (n + 1) (users + 1) good bad rest _ more h
      ∙ ground arith

  -- After lines that are all fine, a line in error ends the load with that error and the line's
  -- number, whatever stands behind it.
  load_acl_file-bad :
      (good : List Bytes) (bad : Bytes) (rest : List Bytes) {e : AclError}
      → All IsFine good
      → line_result bad ≡ err e
      → load_acl_file sha256 (good ++ bad ∷ rest) ≡ err (at_line (length good + 1) e)
  unfolding load_acl_file
  load_acl_file-bad good bad rest fine h =
      rw (load_lines-bad 0 0 good bad rest _ fine h) (ground arith)
