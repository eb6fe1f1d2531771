-- ===== src/Fidelity.antt =====
-- internal/fidelity/policy.go: which observation mode a query may ask for on a path.
pub mod Glob
pub mod Enforce
use wavicle.Prelude.{
  ℕ, Bytes, codes, Bool, true, false, ◌&&◌, ◌||◌, not, ltb, ◌==◌, bytes_eq, nat_eq, if◌then◌else◌,
  Option, none, some, List, [], ◌∷◌, map, split, trim,
}

-- core.ObservationMode, a uint8; a larger number is a looser mode
abbrev pub ObservationMode : Type 0
ObservationMode = ℕ

abbrev pub mode_deductive : ObservationMode
mode_deductive = 0

abbrev pub mode_inductive : ObservationMode
mode_inductive = 1

abbrev pub mode_abductive : ObservationMode
mode_abductive = 2

abbrev pub mode_intuitive : ObservationMode
mode_intuitive = 3

-- `min_confidence` is in hundredths; nothing in the file reads it.
pub record FidelityRule : Type 0 where
  pub pattern_of : Bytes
  pub mode : ObservationMode
  pub max_latency_ms : ℕ
  pub require_merkle_proof : Bool
  pub min_confidence : ℕ

pub record FidelityPolicy : Type 0 where
  pub rules : List FidelityRule

abbrev rule : Bytes → ObservationMode → ℕ → Bool → ℕ → FidelityRule
rule p m l r c = record {
  pattern_of = p;
  mode = m;
  max_latency_ms = l;
  require_merkle_proof = r;
  min_confidence = c;
}

unfoldable pub default_policy : FidelityPolicy
default_policy = record {
  rules =
      rule (codes "/payment/**") mode_deductive 5 true 100
      ∷ rule (codes "/auth/**") mode_deductive 2 false 100
      ∷ rule (codes "/user/**") mode_inductive 10 false 95
      ∷ rule (codes "/feed/**") mode_intuitive 1 false 70
      ∷ rule (codes "/analytics/**") mode_abductive 50 false 80
      ∷ rule (codes "**") mode_inductive 10 false 0
      ∷ [];
}

pub record ValidatedQuery : Type 0 where
  pub path : Bytes
  pub mode : ObservationMode
  pub deadline : ℕ

pub record PolicyError : Type 0 where
  pub path : Bytes
  pub requested : ObservationMode
  pub required : ObservationMode

-- `panic` is the index -1 into an empty rule list.
pub data Verdict : Type 0 where
  validated : ValidatedQuery → Verdict
  refused : PolicyError → Verdict
  panic : Verdict

abbrev pub double_star : Bytes
double_star = codes "**"

abbrev pub star : Bytes
star = codes "*"

-- the loop over `path[k:]` for k from pj up to the last segment
unfoldable pub any_suffix : (List Bytes → Bool) → List Bytes → Bool
any_suffix f [] = false
any_suffix f (s ∷ path) = f (s ∷ path) || any_suffix f path

-- the `**` that is the pattern's last part accepts at once; otherwise a suffix is looked for
unfoldable pub after_star : List Bytes → (List Bytes → Bool) → List Bytes → Bool
after_star [] rest path = true
after_star (_ ∷ _) rest path = any_suffix rest path

-- matchParts; the two indices are the parts that are left
unfoldable pub match_parts : List Bytes → List Bytes → Bool
unfolding after_star any_suffix
match_parts [] [] = true
match_parts [] (_ ∷ _) = false
match_parts (p ∷ ps) [] = false
match_parts (p ∷ ps) (s ∷ path) =
    let rest = match_parts ps path in
    if p == double_star
    then after_star ps (match_parts ps) (s ∷ path)
    else if not (p == star) && not (p == s)
    then false
    else rest

colon_to_slash : ℕ → ℕ
colon_to_slash c = if c == b':' then b'/' else c

-- the closure `normalize` of matchGlob
unfoldable pub normalize : Bytes → List Bytes
unfolding colon_to_slash
normalize s = elim (trim b'/' (map colon_to_slash s)) [ [] ↦ [] | c ∷ t ↦ split b'/' (c ∷ t) ]

unfoldable pub match_glob : Bytes → Bytes → Bool
unfolding match_parts normalize
match_glob pat path = match_parts (normalize pat) (normalize path)

unfoldable pub last_rule : List FidelityRule → Option FidelityRule
last_rule [] = none
last_rule (r ∷ []) = some r
last_rule (_ ∷ r ∷ rs) = last_rule (r ∷ rs)

-- the first rule that matches
unfoldable pub first_rule : Bytes → List FidelityRule → Option FidelityRule
first_rule path [] = none
first_rule path (r ∷ rs) = if match_glob r.pattern_of path then some r else first_rule path rs

-- MatchRule
unfoldable pub match_rule : FidelityPolicy → Bytes → Option FidelityRule
unfolding first_rule last_rule
match_rule p path = elim (first_rule path p.rules) [ none ↦ last_rule p.rules | some r ↦ some r ]

-- ModeFor
unfoldable pub mode_for : FidelityPolicy → Bytes → Option ObservationMode
unfolding match_rule
mode_for p path = elim (match_rule p path) [ none ↦ none | some r ↦ some r.mode ]

-- the test of EnforcePolicy on the rule that was found
enforce_rule : Bytes → ObservationMode → FidelityRule → Verdict
enforce_rule path mode r =
    if ltb r.mode mode
    then refused (record { path = path; requested = mode; required = r.mode })
    else validated (record { path = path; mode = mode; deadline = 0 })

unfoldable pub enforce_policy : Bytes → ObservationMode → FidelityPolicy → Verdict
unfolding match_rule enforce_rule
enforce_policy path mode p = elim (match_rule p path) [
  | none ↦ panic
  | some r ↦ enforce_rule path mode r
]
