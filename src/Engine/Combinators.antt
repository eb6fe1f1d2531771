-- ===== src/Engine/Combinators.antt =====
-- extractField and applyCombinator of internal/engine/incremental.go: the SKI calculus on values.
pub mod Laws
use wavicle.Prelude.{
  ℕ, zero, suc, Bytes, codes, ◌==◌, bytes_eq, if◌then◌else◌, Option, none, some, Outcome, ok, err,
  ◌>>=◌,
}
use wavicle.Core.{Value, null, string, dict, Fields, end, field}

-- `panic` is a nil pointer that is followed, `nil_value` a nil that takes the place of a value, and
-- `unfinished` a run that is out of fuel.
pub data EngineError : Type 0 where
  path_not_found : Bytes → EngineError
  missing_children : EngineError
  unsupported : EngineError
  panic : EngineError
  nil_value : EngineError
  unfinished : EngineError

-- `rec[k]`
unfoldable pub lookup_field : Bytes → Fields → Option Value
lookup_field k end = none
lookup_field k (field j v fs) = if j == k then some v else lookup_field k fs

-- extractField
unfoldable pub extract_field : Bytes → Value → Value
unfolding lookup_field
extract_field k (dict fs) = elim (lookup_field k fs) [ none ↦ null | some v ↦ v ]
extract_field k _ = null

abbrev pub partial1 : Bytes → Value → Value
partial1 fn a = dict (field (codes "fn") (string fn) (field (codes "arg1") a end))

abbrev pub partial2 : Bytes → Value → Value → Value
partial2 fn a b =
    dict (field (codes "fn") (string fn) (field (codes "arg1") a (field (codes "arg2") b end)))

-- VRecord{"fn": f, "arg": a}
abbrev pub applied : Value → Value → Value
applied f a = dict (field (codes "fn") f (field (codes "arg") a end))

abbrev pub Answer : Type 0
Answer = Outcome EngineError Value

abbrev present : Option Value → Answer
present none = err nil_value
present (some v) = ok v

-- the cases of a record whose `fn` is a string; `call` is the recursive call
unfoldable pub apply_partial : (Value → Value → Answer) → Bytes → Fields → Value → Answer
unfolding lookup_field
apply_partial call fn fs c =
    if fn == codes "K_partial"
    then present (lookup_field (codes "arg1") fs)
    else if fn == codes "S_partial1"
    then (do a ← present (lookup_field (codes "arg1") fs); ok (partial2 (codes "S_partial2") a c))
    else if fn == codes "S_partial2"
    then (do
      a ← present (lookup_field (codes "arg1") fs)
      b ← present (lookup_field (codes "arg2") fs)
      ac ← call a c
      bc ← call b c
      call ac bc)
    else ok (applied (dict fs) c)

unfoldable pub apply_step : (Value → Value → Answer) → Value → Value → Answer
unfolding apply_partial
apply_step call (string s) a =
    if s == codes "I"
    then ok a
    else if s == codes "K"
    then ok (partial1 (codes "K_partial") a)
    else if s == codes "S"
    then ok (partial1 (codes "S_partial1") a)
    else ok (applied (string s) a)
apply_step call (dict fs) a = elim (lookup_field (codes "fn") fs) [
  | some (string fn) ↦ apply_partial call fn fs a
  | _ ↦ ok (applied (dict fs) a)
]
apply_step call f a = ok (applied f a)

-- applyCombinator, on fuel for the depth of its calls
unfoldable pub apply_combinator : ℕ → Value → Value → Answer
unfolding apply_step
apply_combinator zero f a = err unfinished
apply_combinator (suc fuel) f a = apply_step (apply_combinator fuel) f a
