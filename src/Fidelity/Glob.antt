-- ===== src/Fidelity/Glob.antt =====
-- `matchParts` of internal/fidelity/policy.go against an inductive account of the patterns.
use wavicle.Prelude.{
  Bytes, ◌≡◌, ◌≢◌, refl, ◌↔◌, ◌⊎◌, inl, inr, Bool, true, ◌==◌, ==_iff, bytes_eq, List, [], ◌∷◌,
  ◌++◌, arith, Bool-cases, ==_refl, bytes_beq, ◌∙◌, sym, subst,
}
use wavicle.Fidelity.{double_star, star, any_suffix, match_parts}

-- A `*` takes one segment and a name takes itself. A `**` at the end takes one segment or more;
-- before other parts it takes any number of segments, and the other parts take the rest.
pub data Matches : List Bytes → List Bytes → Type 0 where
  finish : Matches [] []
  any_segment :
      {ps path : List Bytes} (s : Bytes) → Matches ps path → Matches (star ∷ ps) (s ∷ path)
  segment :
      {ps path : List Bytes} (s : Bytes)
      → s ≢ double_star
      → Matches ps path
      → Matches (s ∷ ps) (s ∷ path)
  all_left : (s : Bytes) (path : List Bytes) → Matches (double_star ∷ []) (s ∷ path)
  skip :
      {p : Bytes} {ps path : List Bytes} (taken : List Bytes)
      → Matches (p ∷ ps) path
      → Matches (double_star ∷ p ∷ ps) (taken ++ path)

any_suffix_sound :
    (f : List Bytes → Bool) (path : List Bytes)
    → any_suffix f path ≡ true
    → (taken : List Bytes) × (rest : List Bytes) × (path ≡ taken ++ rest) × (f rest ≡ true)
unfolding any_suffix
any_suffix_sound f [] h = ground arith
any_suffix_sound f (s ∷ path) h = elim (Bool-cases (f (s ∷ path))) [
  | inl e ↦ ([], s ∷ path, refl, e)
  | inr e ↦
      let (taken, rest, split, found) = any_suffix_sound f path (ground arith) in
      (s ∷ taken, rest, cc split, found)
]

any_suffix_complete :
    (f : List Bytes → Bool) (taken rest : List Bytes)
    → rest ≢ []
    → f rest ≡ true
    → any_suffix f (taken ++ rest) ≡ true
unfolding any_suffix
any_suffix_complete f [] [] n h = absurd (n refl)
any_suffix_complete f [] (s ∷ rest) n h = ground arith
any_suffix_complete f (s ∷ taken) rest n h = ground (arith, any_suffix_complete f taken rest)

append-ne-nil : (xs ys : List Bytes) → ys ≢ [] → xs ++ ys ≢ []
append-ne-nil [] ys n = n
append-ne-nil (x ∷ xs) ys n = cc

Matches-ne-nil : {p : Bytes} {ps path : List Bytes} → Matches (p ∷ ps) path → path ≢ []
Matches-ne-nil (any_segment s m) = cc
Matches-ne-nil (segment s n m) = cc
Matches-ne-nil (all_left s path) = cc
Matches-ne-nil (skip {path = path} taken m) = append-ne-nil taken path (Matches-ne-nil m)

-- One round of the loop, by the three kinds of part.
match_parts-double_star :
    (p : Bytes) (ps path : List Bytes)
    → match_parts (double_star ∷ p ∷ ps) path ≡ any_suffix (match_parts (p ∷ ps)) path
unfolding match_parts bytes_beq
match_parts-double_star p ps [] = refl
match_parts-double_star p ps (s ∷ path) = refl

match_parts-star :
    (s : Bytes) (ps path : List Bytes) → match_parts (star ∷ ps) (s ∷ path) ≡ match_parts ps path
unfolding match_parts bytes_beq
match_parts-star s ps path = refl

match_parts-segment :
    (s : Bytes) (ps path : List Bytes)
    → s ≢ double_star
    → match_parts (s ∷ ps) (s ∷ path) ≡ match_parts ps path
unfolding match_parts
match_parts-segment s ps path n = ground (arith, ==_iff s double_star, ==_refl s)

match_parts_complete : {ps path : List Bytes} → Matches ps path → match_parts ps path ≡ true
unfolding match_parts bytes_beq
match_parts_complete finish = refl
match_parts_complete (any_segment {ps} {path} s m) =
    match_parts-star s ps path ∙ match_parts_complete m
match_parts_complete (segment {ps} {path} s n m) =
    match_parts-segment s ps path n ∙ match_parts_complete m
match_parts_complete (all_left s path) = refl
match_parts_complete (skip {p} {ps} {path} taken m) =
    match_parts-double_star p ps (taken ++ path)
    ∙ any_suffix_complete (match_parts (p ∷ ps)) taken path (Matches-ne-nil m)
        (match_parts_complete m)

-- A round that accepts: the part is `**`, or it takes the segment and the rest accepts.
Round : Bytes → List Bytes → Bytes → List Bytes → Type 0
Round p ps s path =
    (p ≡ double_star) ⊎ ((p ≢ double_star) × ((p ≡ star) ⊎ (p ≡ s)) × (match_parts ps path ≡ true))

match_parts-Round :
    (p : Bytes) (ps : List Bytes) (s : Bytes) (path : List Bytes)
    → match_parts (p ∷ ps) (s ∷ path) ≡ true
    → Round p ps s path
unfolding match_parts Round
match_parts-Round p ps s path h = elim (Bool-cases (p == double_star)) [
  | inl e ↦ inl ((==_iff p double_star).0 e)
  | inr n ↦ elim (Bool-cases (p == star)) [
    | inl e ↦
        inr (ground (arith, ==_iff p double_star), inl ((==_iff p star).0 e), ground (arith, n, e))
    | inr m ↦
        let both : (p ≡ s) × (match_parts ps path ≡ true) = ground (arith, ==_iff p s, n, m) in
        inr (ground (arith, ==_iff p double_star), inr both.0, both.1)
  ]
]

-- A `**` with parts behind it: `any_suffix` found where they start to match.
skip_sound :
    (q : Bytes) (qs path : List Bytes)
    → ((rest : List Bytes) → match_parts (q ∷ qs) rest ≡ true → Matches (q ∷ qs) rest)
    → match_parts (double_star ∷ q ∷ qs) path ≡ true
    → Matches (double_star ∷ q ∷ qs) path
skip_sound q qs path later h =
    let (taken, rest, whole, found) =
      any_suffix_sound (match_parts (q ∷ qs)) path (sym (match_parts-double_star q qs path) ∙ h) in
    rw whole (skip taken (later rest found))

double_star_sound :
    (ps : List Bytes) (s : Bytes) (path : List Bytes)
    → ((rest : List Bytes) → match_parts ps rest ≡ true → Matches ps rest)
    → match_parts (double_star ∷ ps) (s ∷ path) ≡ true
    → Matches (double_star ∷ ps) (s ∷ path)
double_star_sound [] s path later h = all_left s path
double_star_sound (q ∷ qs) s path later h = skip_sound q qs (s ∷ path) later h

taken_sound :
    (p : Bytes) {ps : List Bytes} (s : Bytes) {path : List Bytes}
    → p ≢ double_star
    → (p ≡ star) ⊎ (p ≡ s)
    → Matches ps path
    → Matches (p ∷ ps) (s ∷ path)
taken_sound p s n (inl e) m = rw e (any_segment s m)
taken_sound p s n (inr e) m = rw (← e) (segment p n m)

match_parts_sound : (ps path : List Bytes) → match_parts ps path ≡ true → Matches ps path
unfolding match_parts Round
match_parts_sound [] [] h = finish
match_parts_sound [] (s ∷ path) h = ground arith
match_parts_sound (p ∷ ps) [] h = ground arith
match_parts_sound (p ∷ ps) (s ∷ path) h = elim (match_parts-Round p ps s path h) [
  | inl e ↦ rw e (
      double_star_sound ps s path (λ rest. match_parts_sound ps rest)
        (subst (λ q. match_parts (q ∷ ps) (s ∷ path) ≡ true) e h))
  | inr (n, taken, more) ↦ taken_sound p s n taken (match_parts_sound ps path more)
]

-- The matcher accepts a path exactly when the pattern matches it, wherever the `**` stand.
pub match_parts_iff : (ps path : List Bytes) → (match_parts ps path ≡ true) ↔ Matches ps path
match_parts_iff ps path = (match_parts_sound ps path, match_parts_complete)
