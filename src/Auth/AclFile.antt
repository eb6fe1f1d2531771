-- ===== src/Auth/AclFile.antt =====
-- internal/auth/aclfile.go: the ACL file, from its lines to the users.
pub mod Switch
pub mod Load
use wavicle.Prelude.{
  ℕ, zero, suc, ◌+◌, ◌*◌, Bytes, codes, Bool, true, false, ◌||◌, ◌==◌, bytes_eq, nat_eq,
  if◌then◌else◌, Option, none, some, List, [], ◌∷◌, ◌++◌, insert, delete, to_upper, has_prefix,
  trim_prefix, fields, trim_space, Outcome, ok, err, ◌>>=◌, ◌≡◌, refl, arith,
}
use wavicle.Core.{zeros, zero_hash}
use wavicle.Auth.{User, Acl, is_empty}

-- An error carries the line number where the source prints it.
pub data AclError : Type 0 where
  not_a_user : AclError
  empty_name : AclError
  empty_password : AclError
  unsupported_selector : Bytes → AclError
  unknown_token : Bytes → AclError
  at_line : ℕ → AclError → AclError
  no_users : AclError

abbrev pub Result {ℓ} : Type ℓ → Type ℓ
Result A = Outcome AclError A

-- The loop's variables: the user so far, and the local `on`.
abbrev pub Line : Type 0
Line = User × Bool

abbrev selector : Bytes → Bytes → Bytes
selector sign t = to_upper (trim_prefix t sign)

unfoldable pub bad_selector : Bytes → Bool
bad_selector cmd = is_empty cmd || has_prefix cmd (codes "@")

abbrev fresh_user : Bytes → User
fresh_user name = record {
  name = name;
  pass_sha256 = zero_hash;
  commands = [];
  key_patterns = [];
  admin = false;
  on = false;
}

-- a line that the loop of LoadACLFile skips
unfoldable pub skipped : Bytes → Bool
skipped line = is_empty line || has_prefix line (codes "#")

module _ (sha256 : Bytes → Bytes) where
  -- the cases of the switch from `>` on
  set_token : Bytes → User → Result User
  unfolding bad_selector
  set_token t u =
      if has_prefix t (codes ">")
      then (if is_empty (trim_prefix t (codes ">"))
          then err empty_password
          else ok (record u { pass_sha256 = sha256 (trim_prefix t (codes ">")) }))
      else if t == codes "+@all"
      then ok (record u { admin = true })
      else if t == codes "-@all"
      then ok (record u { admin = false; commands = [] })
      else if has_prefix t (codes "+")
      then (if bad_selector (selector (codes "+") t)
          then err (unsupported_selector t)
          else ok (record u { commands = insert (selector (codes "+") t) true u.commands }))
      else if has_prefix t (codes "-")
      then (if bad_selector (selector (codes "-") t)
          then err (unsupported_selector t)
          else ok (record u { commands = delete (selector (codes "-") t) u.commands }))
      else if has_prefix t (codes "~")
      then ok (record u { key_patterns = u.key_patterns ++ trim_prefix t (codes "~") ∷ [] })
      else err (unknown_token t)

  -- one round of the loop over the tokens
  unfoldable pub parse_token : Bytes → Line → Result Line
  unfolding set_token
  parse_token t (u, on) =
      if t == codes "on"
      then ok (u, true)
      else if t == codes "off"
      then ok (u, false)
      else if t == codes "reset"
      then ok (
        record u { commands = []; key_patterns = []; pass_sha256 = zero_hash; admin = false },
        false,
      )
      else if t == codes "nopass"
      then ok (record u { pass_sha256 = zero_hash }, on)
      else (do u' ← set_token t u; ok (u', on))

  unfoldable pub parse_tokens : List Bytes → Line → Result Line
  unfolding parse_token
  parse_tokens [] l = ok l
  parse_tokens (t ∷ ts) l = do l' ← parse_token t l; parse_tokens ts l'

  -- parseACLLine, after strings.Fields
  unfoldable pub parse_fields : List Bytes → Result (Bytes × User)
  unfolding parse_tokens
  parse_fields [] = err not_a_user
  parse_fields (_ ∷ []) = err not_a_user
  parse_fields (word ∷ name ∷ toks) =
      if word == codes "user"
      then (if is_empty name then err empty_name else (do
        (u, on) ← parse_tokens toks (fresh_user name, false)
        ok (name, record u { on = on })))
      else err not_a_user

  unfoldable pub parse_acl_line : Bytes → Result (Bytes × User)
  unfolding parse_fields
  parse_acl_line line = parse_fields (fields line)

  -- the loop of LoadACLFile over the scanner's lines; `n` counts the lines, `users` the users
  unfoldable pub load_lines : ℕ → ℕ → List Bytes → Acl → Result (Acl × ℕ)
  unfolding skipped parse_acl_line
  load_lines n users [] a = ok (a, users)
  load_lines n users (text ∷ rest) a =
      let line = trim_space text in
      elim (skipped line) [
        | true ↦ load_lines (n + 1) users rest a
        | false ↦ elim (parse_acl_line line) [
          | err e ↦ err (at_line (n + 1) e)
          | ok (name, u) ↦
              load_lines (n + 1) (users + 1) rest
                (record { users = insert name u a.users; enabled = true })
        ]
      ]

  -- LoadACLFile on a file that opens and scans
  unfoldable pub load_acl_file : List Bytes → Result Acl
  unfolding load_lines
  load_acl_file lines = do
    (a, users) ← load_lines 0 0 lines (record { users = []; enabled = false })
    if users == 0 then err no_users else ok a
