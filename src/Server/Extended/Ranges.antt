-- ===== src/Server/Extended/Ranges.antt =====
-- LRANGE and ZRANGE against the reading of their indices, and what LPOP and RPOP take.
use wavicle.Prelude.{
  ℕ, zero, suc, ◌+◌, ◌-◌, ◌≤◌, ◌<◌, ◌≡◌, ◌↔◌, refl, ap, ◌∙◌, arith, leb, Bool-cases, inl, inr, List,
  [], ◌∷◌, ◌++◌, length, get_elem?, take, drop, reverse, take-append-drop, length-take, length-drop,
  length-append, ℤ, pos, negsuc, if◌then◌else◌,
}
use mathlib.Core.List.{reverse-cons}
use mathlib.Mathlib.Data.List.Basic.{reverse-Involutive}
use wavicle.Core.{Value}
use wavicle.Server.Values.{from_end, range_start, range_stop, window}
use wavicle.Server.Extended.Lists.{slice, pop_left, pop_right}

-- an index that counts from the end, at or before position k, and at or behind it
abbrev pub AtMost : ℤ → ℕ → Type 0
AtMost (pos i) k = i ≤ k
AtMost (negsuc i) k = Unit

abbrev pub AtLeast : ℤ → ℕ → Type 0
AtLeast (pos i) k = k ≤ i
AtLeast (negsuc i) k = ⊥

range_start_iff : (n k : ℕ) (i : ℤ) → (range_start n i ≤ k) ↔ AtMost (from_end n i) k
unfolding range_start
range_start_iff n k i = start_iff (from_end n i)
  where
    start_iff : (j : ℤ) → ((elim j [ pos k ↦ k | negsuc k ↦ 0 ]) ≤ k) ↔ AtMost j k
    start_iff (pos j) = (λ h. h, λ h. h)
    start_iff (negsuc j) = (λ h. tt, λ h. omega arith)

range_stop_iff : (n k : ℕ) (i : ℤ) → k < n → (k < range_stop n i) ↔ AtLeast (from_end n i) k
unfolding range_stop
range_stop_iff n k i small = stop_iff (from_end n i)
  where
    stop_iff :
        (j : ℤ)
        → (k < (elim j [ pos l ↦ if leb n l then n else suc l | negsuc l ↦ 0 ])) ↔ AtLeast j k
    stop_iff (pos j) = (λ h. ground (arith, h), λ h. ground (arith, h))
    stop_iff (negsuc j) = (λ h. omega arith, λ h. absurd h)

get_elem?-take {ℓ} :
    {A : Type ℓ} (n i : ℕ) (xs : List A) → i < n → get_elem? (take n xs) i ≡ get_elem? xs i
get_elem?-take zero i xs h = elim h [ ]
get_elem?-take (suc n) i [] h = refl
get_elem?-take (suc n) zero (x ∷ xs) h = refl
get_elem?-take (suc n) (suc i) (x ∷ xs) h = get_elem?-take n i xs (omega arith)

get_elem?-drop {ℓ} :
    {A : Type ℓ} (n i : ℕ) (xs : List A) → get_elem? (drop n xs) i ≡ get_elem? xs (n + i)
get_elem?-drop zero i xs = ap (get_elem? xs) (omega arith)
get_elem?-drop (suc n) i [] = refl
get_elem?-drop (suc n) i (x ∷ xs) = get_elem?-drop n i xs ∙ ap (get_elem? (x ∷ xs)) (suc_left n i)
  where
    suc_left : (m k : ℕ) → suc (m + k) ≡ suc m + k
    suc_left m k = omega arith

range_stop_le : (n : ℕ) (i : ℤ) → range_stop n i ≤ n
unfolding range_stop
range_stop_le n i = stop_le (from_end n i)
  where
    stop_le : (j : ℤ) → (elim j [ pos l ↦ if leb n l then n else suc l | negsuc l ↦ 0 ]) ≤ n
    stop_le (pos j) = ground arith
    stop_le (negsuc j) = omega arith

-- What LRANGE and ZRANGE take of a list is the stretch of the positions k that lie in the range: the
-- start, counted from the end if it is negative, is at most k, and the stop at least k. It begins at
-- the start or at 0, and its elements are those of the list, one for one.
pub window-range :
    {A : Type 0} (xs : List A) (start stop : ℤ)
    → let n = length xs in
      let low = range_start n start in
      let ys = slice (window xs start stop) in
      ((i : ℕ) → i < length ys → get_elem? ys i ≡ get_elem? xs (low + i))
      × ((k : ℕ)
          → k < n
          → (low ≤ k × k < low + length ys)
            ↔ (AtMost (from_end n start) k × AtLeast (from_end n stop) k))
unfolding window
window-range xs start stop =
    let n = length xs in
    let low = range_start n start in
    let high = range_stop n stop in
    let begun = λ (k : ℕ). range_start_iff n k start in
    let ended = λ (k : ℕ) (small : k < n). range_stop_iff n k stop small in
    elim (Bool-cases (leb n low)) [
      | inl past ↦ rw past (
        λ i h. absurd (omega (arith, h)),
        λ k small. (
          λ (p, q). absurd (omega (arith, p, q)),
          λ (p, q). absurd (ground (arith, (begun k).1 p, past, small)),
        ),
      )
      | inr before ↦ elim (Bool-cases (leb high low)) [
        | inl none_left ↦
            rw (before, none_left)
              (
                λ i h. absurd (omega (arith, h)),
                λ k small. (
                  λ (p, q). absurd (omega (arith, p, q)),
                  λ (p, q). absurd (ground (arith, (begun k).1 p, (ended k small).1 q, none_left)),
                ),
              )
        | inr some_left ↦
            let long =
              length-take (high - low) (drop low xs)
                (rw (length-drop low xs) (ground (arith, range_stop_le n stop))) in
            rw (before, some_left, long)
              (
                λ i h. get_elem?-take (high - low) i (drop low xs) h ∙ get_elem?-drop low i xs,
                λ k small. (
                  λ (p, q). ((begun k).0 p, (ended k small).0 (ground (arith, p, q, some_left))),
                  λ (p, q). ((begun k).1 p, ground (arith, (ended k small).1 q, some_left)),
                ),
              )
      ]
    ]

reverse-reverse : {A : Type 0} (xs : List A) → reverse (reverse xs) ≡ xs
reverse-reverse xs = reverse-Involutive xs

length-reverse : {A : Type 0} (xs : List A) → length (reverse xs) ≡ length xs
length-reverse [] = refl
length-reverse (x ∷ xs) =
    ap length (reverse-cons x xs)
    ∙ length-append (reverse xs) (x ∷ [])
    ∙ grind (arith, length-reverse xs)

-- LPOP and RPOP of a count that the list has take that many elements off it, LPOP the first ones in
-- their order, and RPOP the last ones in the order from the end; what is left is the rest.
pop_left-pop_right :
    (count : ℕ) (xs : List Value)
    → count ≤ length xs
    → let l = pop_left count xs in
      let r = pop_right count xs in
      (l.0 ++ l.1 ≡ xs) × (length l.0 ≡ count) × (r.1 ++ reverse r.0 ≡ xs) × (length r.0 ≡ count)
unfolding pop_left pop_right
pop_left-pop_right count xs h =
    let n = length xs - count in
    (
      take-append-drop count xs,
      length-take count xs h,
      ap (λ ys. take n xs ++ ys) (reverse-reverse (drop n xs)) ∙ take-append-drop n xs,
      length-reverse (drop n xs) ∙ length-drop n xs ∙ omega (arith, h),
    )
