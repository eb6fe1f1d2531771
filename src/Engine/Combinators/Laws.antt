-- ===== src/Engine/Combinators/Laws.antt =====
-- The equations of the SKI calculus, and a term that applyCombinator never finishes.
use wavicle.Prelude.{ℕ, zero, suc, codes, bytes_beq, ◌≡◌, refl, ok, err, ◌>>=◌}
use wavicle.Core.{Value, string}
use wavicle.Engine.Combinators.{Answer, unfinished, partial2, apply_combinator}

abbrev pub i_combinator : Value
i_combinator = string (codes "I")

abbrev k_combinator : Value
k_combinator = string (codes "K")

abbrev pub s_combinator : Value
s_combinator = string (codes "S")

-- An application of one term to two or three arguments.
abbrev pub apply2 : ℕ → Value → Value → Value → Answer
apply2 fuel f a b = do fa ← apply_combinator fuel f a; apply_combinator fuel fa b

abbrev apply3 : ℕ → Value → Value → Value → Value → Answer
apply3 fuel f a b c = do fab ← apply2 fuel f a b; apply_combinator fuel fab c

-- With fuel for one call and the calls it makes, applyCombinator obeys the equations of SKI on all
-- values: I a = a, K a b = a, and S a b c = a c (b c), where the right side has one unit less.
apply_combinator-ski :
    (fuel : ℕ) (a b c : Value)
    → (apply_combinator (suc fuel) i_combinator a ≡ ok a)
      × (apply2 (suc fuel) k_combinator a b ≡ ok a)
      × (apply3 (suc fuel) s_combinator a b c ≡ (do
        ac ← apply_combinator fuel a c
        bc ← apply_combinator fuel b c
        apply_combinator fuel ac bc))
unfolding apply_combinator bytes_beq
apply_combinator-ski fuel a b c = (refl, refl, refl)

-- S I I, the term that applies its argument to itself.
abbrev pub self_application : Value
self_application = partial2 (codes "S_partial2") i_combinator i_combinator

self_application_step :
    (fuel : ℕ)
    → apply_combinator (suc (suc fuel)) self_application self_application
      ≡ apply_combinator (suc fuel) self_application self_application
unfolding apply_combinator bytes_beq
self_application_step fuel = refl

-- applyCombinator builds S I I from its parts, and applied to itself that term never gives a
-- result, whatever the fuel: the recursion of the source does not end.
pub apply_combinator_diverges :
    (fuel : ℕ)
    → (apply2 (suc fuel) s_combinator i_combinator i_combinator ≡ ok self_application)
      × (apply_combinator fuel self_application self_application ≡ err unfinished)
apply_combinator_diverges fuel = (unfold apply_combinator bytes_beq in refl, never fuel)
  where
    never : (n : ℕ) → apply_combinator n self_application self_application ≡ err unfinished
    never zero = unfold apply_combinator in refl
    never (suc zero) = unfold apply_combinator bytes_beq in refl
    never (suc (suc n)) = rw (self_application_step n) (never (suc n))
