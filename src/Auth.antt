-- ===== src/Auth.antt =====
-- internal/auth/acl.go: users, passwords and the check of every command.
pub mod Authorize
pub mod AclFile
use wavicle.Prelude.{
  Bytes, codes, Bool, true, false, ◌&&◌, not, ◌==◌, bytes_eq, if◌then◌else◌, Option, none, some,
  List, [], ◌∷◌, Dict, lookup, insert, to_upper, has_prefix, has_suffix, trim_suffix,
}

-- `commands` is a map[string]bool: a missing command reads as false.
pub record User : Type 0 where
  pub name : Bytes
  pub pass_sha256 : Bytes
  pub commands : Dict Bytes Bool
  pub key_patterns : List Bytes
  pub admin : Bool
  pub on : Bool

pub record Acl : Type 0 where
  pub users : Dict Bytes User
  pub enabled : Bool

-- The errors of Authorize; `none` stands for a nil error.
pub data Denial : Type 0 where
  noauth : Denial
  noperm_command : Bytes → Bytes → Denial
  noperm_key : Bytes → Bytes → Denial

abbrev pub disabled : Acl
disabled = record { users = []; enabled = false }

-- `m[c]` on a map[string]bool
abbrev pub flag : Bytes → Dict Bytes Bool → Bool
flag c m = elim (lookup c m) [ none ↦ false | some b ↦ b ]

abbrev pub is_empty {ℓ} : {A : Type ℓ} → List A → Bool
is_empty [] = true
is_empty (_ ∷ _) = false

-- matchPattern
unfoldable pub match_pattern : Bytes → Bytes → Bool
match_pattern pat key =
    if pat == codes "*"
    then true
    else if is_empty pat
    then true
    else if has_suffix pat (codes "*")
    then has_prefix key (trim_suffix pat (codes "*"))
    else pat == key

-- the loop over the patterns
unfoldable pub any_pattern : List Bytes → Bytes → Bool
unfolding match_pattern
any_pattern [] key = false
any_pattern (p ∷ ps) key =
    let rest = any_pattern ps key in if match_pattern p key then true else rest

-- the loop of AddUser over its commands
unfoldable pub command_set : List Bytes → Dict Bytes Bool → Dict Bytes Bool
command_set [] m = m
command_set (c ∷ cs) m = command_set cs (insert (to_upper c) true m)

-- the checks of Authorize on a user that is on and no admin
unfoldable pub check_user : User → Bytes → Bytes → Bytes → Option Denial
unfolding any_pattern
check_user u name cmd key =
    let uc = to_upper cmd in
    if not (is_empty u.commands) && not (flag uc u.commands) && not (flag (codes "ALL") u.commands)
    then some (noperm_command uc name)
    else if not (is_empty key) && not (is_empty u.key_patterns)
    then (if any_pattern u.key_patterns key then none else some (noperm_key key name))
    else none

unfoldable pub authorize : Acl → Bytes → Bytes → Bytes → Option Denial
unfolding check_user
authorize a name cmd key = if not a.enabled then none else elim (lookup name a.users) [
  | none ↦ some noauth
  | some u ↦ if not u.on then some noauth else if u.admin then none else check_user u name cmd key
]

-- SHA-256 is the standard library's.
module _ (sha256 : Bytes → Bytes) where
  -- the user that AddUser stores
  abbrev pub new_user : Bytes → Bytes → List Bytes → List Bytes → Bool → User
  new_user name password commands key_patterns admin = record {
    name = name;
    pass_sha256 = sha256 password;
    commands = command_set commands [];
    key_patterns = key_patterns;
    admin = admin;
    on = true;
  }

  unfoldable pub add_user : Acl → Bytes → Bytes → List Bytes → List Bytes → Bool → Acl
  unfolding command_set
  add_user a name password commands key_patterns admin = record {
    users = insert name (new_user name password commands key_patterns admin) a.users;
    enabled = true;
  }

  unfoldable pub new_single_password : Bytes → Acl
  unfolding add_user
  new_single_password password =
      if is_empty password
      then disabled
      else add_user (record { users = []; enabled = true }) (codes "default") password [] [] true

  -- ConstantTimeCompare of two hashes of equal length is equality
  unfoldable pub authenticate : Acl → Bytes → Bytes → Bool
  authenticate a name password = elim (lookup name a.users) [
    | none ↦ false
    | some u ↦ if not u.on then false else u.pass_sha256 == sha256 password
  ]
