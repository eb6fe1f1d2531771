-- ===== src/Tests/Access.antt =====
-- internal/auth and internal/fidelity on concrete users, files and paths.
use wavicle.Prelude.{
  ok, Bytes, codes, bytes_beq, bytes_eq, ◌≡◌, refl, ◌↔◌, true, false, none, List, [], ◌∷◌, to_upper,
  has_prefix,
}
use wavicle.Auth.{User, Acl, authorize}
use wavicle.Auth.Authorize.{Permitted, authorize_iff}
use wavicle.Auth.AclFile.{parse_fields, bad_selector}
use wavicle.Auth.AclFile.Switch.{authorize-revoked}
use wavicle.Fidelity.{FidelityRule, match_parts}
use wavicle.Fidelity.Glob.{Matches, match_parts_iff}
use wavicle.Tests.{plain_hash}

abbrev reader : User
reader = record {
  name = codes "ro";
  pass_sha256 = codes "pw";
  commands = (codes "GET", true) ∷ [];
  key_patterns = codes "user:*" ∷ [];
  admin = false;
  on = true;
}

abbrev gate : Acl
gate = record { users = (codes "ro", reader) ∷ []; enabled = true }

authorize_iff_example :
    (authorize gate (codes "ro") (codes "get") (codes "user:1") ≡ none)
    ↔ Permitted gate (codes "ro") (codes "get") (codes "user:1")
authorize_iff_example = authorize_iff gate (codes "ro") (codes "get") (codes "user:1")

authorize-revoked_example :
    (u : User) × (parse_fields plain_hash
        (codes "user" ∷ codes "ro" ∷ codes "on" ∷ codes "+get" ∷ codes "-get" ∷ [])
      ≡ ok (codes "ro", u))
    × ((cmd key : Bytes)
        → authorize (record { users = (codes "ro", u) ∷ []; enabled = true }) (codes "ro") cmd key
          ≡ none)
unfolding bad_selector to_upper has_prefix bytes_beq
authorize-revoked_example =
    authorize-revoked plain_hash (codes "ro") (codes "get") (λ e. cc e) ((λ e. cc e), refl)

abbrev file : List Bytes
file = codes "# users" ∷ codes "user ro on >pw" ∷ []

match_parts_iff_example :
    (match_parts (codes "**" ∷ codes "b" ∷ []) (codes "a" ∷ codes "b" ∷ []) ≡ true)
    ↔ Matches (codes "**" ∷ codes "b" ∷ []) (codes "a" ∷ codes "b" ∷ [])
match_parts_iff_example = match_parts_iff (codes "**" ∷ codes "b" ∷ []) (codes "a" ∷ codes "b" ∷ [])

abbrev feed_rule : FidelityRule
feed_rule = record {
  pattern_of = codes "/feed/*";
  mode = 1;
  max_latency_ms = 5;
  require_merkle_proof = false;
  min_confidence = 0;
}
