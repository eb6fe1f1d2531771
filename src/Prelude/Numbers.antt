-- ===== src/Prelude/Numbers.antt =====
-- Go's signed integers, and their decimal text: `%d` and strconv.Atoi on 64 bits.
use Prim.Native.Nat.{ℕ, zero, suc, ◌+◌, ◌-◌, ◌*◌, ◌/◌, ◌%◌, ◌^◌, ◌≤◌, ◌<◌}
use mathlib.Core.Path.{◌≡◌, refl, sym, ◌∙◌, ap, subst}
use mathlib.Core.Bool.{Bool, ◌&&◌}
use mathlib.Core.List.{[], ◌∷◌}
use mathlib.Core.Option.{Option, none, some}
use mathlib.Core.Logic.{inl, inr, ◌↔◌}
use native.Mathlib.Omega.{arith}
use wavicle.Prelude.Tests.{
  if◌then◌else◌, if_cases, ltb, leb, Bool-cases, nat_eq, ◌==◌, ltb_false→le,
}
use wavicle.Prelude.Strings.{Bytes}
use wavicle.Prelude.Lists.{All}

-- `negsuc n` is -(n + 1).
pub data ℤ : Type 0 where
  pos : ℕ → ℤ
  negsuc : ℕ → ℤ

-- the digits of n in front of `acc`
digits : ℕ → ℕ → Bytes → Bytes
digits zero n acc = acc
digits (suc fuel) n acc =
    let longer = (48 + n % 10) ∷ acc in
    let rest = digits fuel (n / 10) longer in if ltb n 10 then longer else rest

-- `%d` of a number; it has fewer digits than its value and one
unfoldable pub decimal : ℕ → Bytes
unfolding digits
decimal n = digits (suc n) n []

-- `%d` of an int
unfoldable pub show_int : ℤ → Bytes
unfolding decimal
show_int (pos n) = decimal n
show_int (negsuc n) = b'-' ∷ decimal (suc n)

abbrev is_digit : ℕ → Bool
is_digit c = leb 48 c && leb c 57

read_digits : ℕ → Bytes → Option ℕ
read_digits acc [] = some acc
read_digits acc (c ∷ s) = if is_digit c then read_digits (acc * 10 + (c - 48)) s else none

read_nat : Bytes → Option ℕ
unfolding read_digits
read_nat [] = none
read_nat (c ∷ s) = read_digits 0 (c ∷ s)

to_pos : Option ℕ → Option ℤ
to_pos none = none
to_pos (some n) = if ltb n (2 ^ 63) then some (pos n) else none

to_neg : Option ℕ → Option ℤ
to_neg none = none
to_neg (some zero) = some (pos 0)
to_neg (some (suc n)) = if ltb n (2 ^ 63) then some (negsuc n) else none

-- strconv.Atoi, strconv.ParseInt(s, 10, 64); none for an error
unfoldable pub atoi : Bytes → Option ℤ
unfolding read_nat to_pos to_neg
atoi [] = none
atoi (c ∷ s) =
    if c == b'-'
    then to_neg (read_nat s)
    else if c == b'+'
    then to_pos (read_nat s)
    else to_pos (read_nat (c ∷ s))

read_digits-digits :
    (fuel n : ℕ) (acc : Bytes) → n < fuel → read_digits 0 (digits fuel n acc) ≡ read_digits n acc
unfolding digits read_digits
read_digits-digits zero n acc h = elim h [ ]
read_digits-digits (suc fuel) n acc h = elim (Bool-cases (ltb n 10)) [
  | inl small ↦ rw small (ground arith)
  | inr large ↦ rw large (
      read_digits-digits fuel (n / 10) ((48 + n % 10) ∷ acc)
        (omega (arith, ltb_false→le n 10 large))
      ∙ ground arith)
]

-- the digits begin with a digit
digits_head :
    (fuel n : ℕ) (acc : Bytes)
    → (c : ℕ) × (s : Bytes) × (digits (suc fuel) n acc ≡ c ∷ s) × (48 ≤ c) × (c ≤ 57)
unfolding digits
digits_head zero n acc = (48 + n % 10, acc, ground arith, omega arith, omega arith)
digits_head (suc fuel) n acc = elim (Bool-cases (ltb n 10)) [
  | inl small ↦ (48 + n % 10, acc, rw small, omega arith, omega arith)
  | inr large ↦ rw large (digits_head fuel (n / 10) ((48 + n % 10) ∷ acc))
]

decimal-read_nat :
    (n : ℕ) → (c : ℕ) × (s : Bytes) × (decimal n ≡ c ∷ s) × (48 ≤ c) × (read_nat (c ∷ s) ≡ some n)
unfolding decimal read_nat read_digits
decimal-read_nat n =
    let (c, s, e, low, _) = digits_head n n [] in
    (c, s, e, low, ap (read_digits 0) (sym e) ∙ read_digits-digits (suc n) n [] (omega arith))

-- A number below 2^63 is read back from its text.
pub atoi-decimal : (n : ℕ) → n < 2 ^ 63 → atoi (decimal n) ≡ some (pos n)
unfolding atoi
atoi-decimal n h = let (c, s, e, low, whole) = decimal-read_nat n in rw e (ground (arith, whole))

digits-All :
    (P : ℕ → Type 0)
    → ((c : ℕ) → 48 ≤ c → c ≤ 57 → P c)
    → (fuel n : ℕ) (acc : Bytes) → All P acc
    → All P (digits fuel n acc)
unfolding digits
digits-All P p zero n acc h = h
digits-All P p (suc fuel) n acc h =
    let longer : All P ((48 + n % 10) ∷ acc) = (p (48 + n % 10) (omega arith) (omega arith), h) in
    if_cases (All P) (ltb n 10) ((48 + n % 10) ∷ acc) (digits fuel (n / 10) ((48 + n % 10) ∷ acc))
      longer (digits-All P p fuel (n / 10) ((48 + n % 10) ∷ acc) longer)

-- Every byte of the text of a number is a digit.
pub decimal-All : (P : ℕ → Type 0) → ((c : ℕ) → 48 ≤ c → c ≤ 57 → P c) → (n : ℕ) → All P (decimal n)
unfolding decimal
decimal-All P p n = digits-All P p (suc n) n [] tt

-- the int64 of 64 bits
unfoldable pub signed : ℕ → ℤ
signed n = if ltb n (2 ^ 63) then pos n else negsuc (2 ^ 64 - n - 1)

-- the 64 bits of an int64
unfoldable pub bits : ℤ → ℕ
bits (pos n) = n % 2 ^ 64
bits (negsuc n) = 2 ^ 64 - 1 - n % 2 ^ 64

-- `a + b` on int64, which wraps
unfoldable pub add64 : ℤ → ℤ → ℤ
unfolding signed bits
add64 a b = signed ((bits a + bits b) % 2 ^ 64)

-- `-a` on int64
unfoldable pub neg64 : ℤ → ℤ
unfolding signed bits
neg64 a = signed ((2 ^ 64 - bits a) % 2 ^ 64)

-- the sum of two integers
infixl 30 ◌+ℤ◌
unfoldable pub ◌+ℤ◌ : ℤ → ℤ → ℤ
pos a +ℤ pos b = pos (a + b)
pos a +ℤ negsuc b = if ltb b a then pos (a - suc b) else negsuc (b - a)
negsuc a +ℤ pos b = if ltb a b then pos (b - suc a) else negsuc (a - b)
negsuc a +ℤ negsuc b = negsuc (suc (a + b))

-- The integers of an int64: from -2^63 to 2^63 - 1.
abbrev pub IsInt64 : ℤ → Type 0
IsInt64 (pos n) = n < 2 ^ 63
IsInt64 (negsuc n) = n < 2 ^ 63

signed-pos : (n : ℕ) → n < 2 ^ 63 → signed n ≡ pos n
unfolding signed
signed-pos n h = ground arith

signed-negsuc : (n : ℕ) → 2 ^ 63 ≤ n → signed n ≡ negsuc (2 ^ 64 - n - 1)
unfolding signed
signed-negsuc n h = ground arith

signed-IsInt64 : (n : ℕ) → n < 2 ^ 64 → IsInt64 (signed n)
unfolding signed
signed-IsInt64 n h = elim (Bool-cases (ltb n (2 ^ 63))) [
  | inl small ↦ rw small (ground (arith, small))
  | inr large ↦ rw large (ground (arith, large))
]

exact64 : (a b : ℤ) → IsInt64 a → IsInt64 b → IsInt64 (a +ℤ b) → add64 a b ≡ a +ℤ b
unfolding add64 bits ◌+ℤ◌
exact64 (pos a) (pos b) p q r = ap signed (omega (arith, p, q)) ∙ signed-pos (a + b) r
exact64 (pos a) (negsuc b) p q r = elim (Bool-cases (ltb b a)) [
  | inl less ↦
      rw less (ap signed (ground (arith, less)) ∙ signed-pos (a - suc b) (omega (arith, p)))
  | inr more ↦ rw more (signed-negsuc _ (ground (arith, more)) ∙ ap negsuc (ground (arith, more)))
]
exact64 (negsuc a) (pos b) p q r = elim (Bool-cases (ltb a b)) [
  | inl less ↦
      rw less (ap signed (ground (arith, less)) ∙ signed-pos (b - suc a) (omega (arith, q)))
  | inr more ↦ rw more (signed-negsuc _ (ground (arith, more)) ∙ ap negsuc (ground (arith, more)))
]
exact64 (negsuc a) (negsuc b) p q r =
    signed-negsuc _ (omega (arith, p, q, r)) ∙ ap negsuc (omega (arith, p, q, r))

-- What int64 addition gives is an int64, and the sum of the two numbers exactly when that is an int64.
pub add64_iff :
    (a b : ℤ)
    → IsInt64 a
    → IsInt64 b
    → IsInt64 (add64 a b) × ((add64 a b ≡ a +ℤ b) ↔ IsInt64 (a +ℤ b))
unfolding add64 bits ◌+ℤ◌
add64_iff a b p q = (
  signed-IsInt64 _ (omega arith),
  (λ e. subst IsInt64 e (signed-IsInt64 _ (omega arith)), exact64 a b p q),
)

same-IsInt64 : (o : Option ℤ) (m n : ℤ) → IsInt64 m → o ≡ some m → o ≡ some n → IsInt64 n
same-IsInt64 o m n p e h = let same : m ≡ n = cc (e, h) in subst IsInt64 same p

to_pos-IsInt64 : (o : Option ℕ) (n : ℤ) → to_pos o ≡ some n → IsInt64 n
unfolding to_pos
to_pos-IsInt64 none n h = absurd (ground (arith, h))
to_pos-IsInt64 (some k) n h = elim (Bool-cases (ltb k (2 ^ 63))) [
  | inl small ↦ same-IsInt64 _ (pos k) n (ground (arith, small)) (rw small refl) h
  | inr large ↦ absurd (ground (arith, h, large))
]

to_neg-IsInt64 : (o : Option ℕ) (n : ℤ) → to_neg o ≡ some n → IsInt64 n
unfolding to_neg
to_neg-IsInt64 none n h = absurd (ground (arith, h))
to_neg-IsInt64 (some zero) n h = same-IsInt64 _ (pos 0) n (omega arith) refl h
to_neg-IsInt64 (some (suc k)) n h = elim (Bool-cases (ltb k (2 ^ 63))) [
  | inl small ↦ same-IsInt64 _ (negsuc k) n (ground (arith, small)) (rw small refl) h
  | inr large ↦ absurd (ground (arith, h, large))
]

-- Atoi gives an int64.
pub atoi-IsInt64 : (s : Bytes) (n : ℤ) → atoi s ≡ some n → IsInt64 n
unfolding atoi
atoi-IsInt64 [] n h = absurd (ground (arith, h))
atoi-IsInt64 (c ∷ s) n h = elim (Bool-cases (c == b'-')) [
  | inl minus ↦ to_neg-IsInt64 (read_nat s) n (sym (rw minus refl) ∙ h)
  | inr other ↦ elim (Bool-cases (c == b'+')) [
    | inl plus ↦ to_pos-IsInt64 (read_nat s) n (sym (rw (other, plus) refl) ∙ h)
    | inr digit ↦ to_pos-IsInt64 (read_nat (c ∷ s)) n (sym (rw (other, digit) refl) ∙ h)
  ]
]
