-- ===== src/Prelude/Strings.antt =====
-- Go's strings and byte slices: lists of bytes, and the functions of the `strings` package.
use Prim.Native.Nat.{ℕ, ◌-◌}
use Prim.Native.Char.{code}
use Prim.Native.String.{String}
use mathlib.Core.Path.{◌≡◌, refl, sym, ap, ◌∙◌}
use mathlib.Core.Bool.{Bool, true, false, ◌&&◌, ◌||◌}
use mathlib.Core.Logic.{◌↔◌}
use mathlib.Core.List.{List, [], ◌∷◌, ◌++◌, map, reverse}
use native.Mathlib.Omega.{arith}
use wavicle.Prelude.Tests.{if◌then◌else◌, leb, Comparable, ◌==◌, ==_iff, ==_refl, nat_eq}
use wavicle.Prelude.Lists.{
  length, take, drop, length-append, drop-append, take-append, take-append-drop,
}

abbrev pub Bytes : Type 0
Bytes = List ℕ

-- The bytes of an ASCII literal.
abbrev pub codes : String → Bytes
codes String.[] = []
codes (String.◌∷◌ c s) = code c ∷ codes s

unfoldable pub bytes_beq : Bytes → Bytes → Bool
bytes_beq [] [] = true
bytes_beq (a ∷ s) (b ∷ t) = a == b && bytes_beq s t
bytes_beq _ _ = false

bytes_beq_sound : (s t : Bytes) → bytes_beq s t ≡ true → s ≡ t
unfolding bytes_beq
bytes_beq_sound [] [] h = refl
bytes_beq_sound (a ∷ s) (b ∷ t) h = ground (arith, bytes_beq_sound s t)
bytes_beq_sound _ _ h = ground arith

bytes_beq_refl : (s : Bytes) → bytes_beq s s ≡ true
unfolding bytes_beq
bytes_beq_refl [] = refl
bytes_beq_refl (a ∷ s) = ground (arith, bytes_beq_refl s)

pub bytes_beq_iff : (s t : Bytes) → (bytes_beq s t ≡ true) ↔ (s ≡ t)
bytes_beq_iff s t = (bytes_beq_sound s t, λ e. rw e (bytes_beq_refl t))

instance abbrev pub bytes_eq : Comparable Bytes
bytes_eq = record { same = bytes_beq; same_iff = bytes_beq_iff }

-- strings.HasPrefix(s, p)
unfoldable pub has_prefix : Bytes → Bytes → Bool
has_prefix s [] = true
has_prefix [] (b ∷ p) = false
has_prefix (a ∷ s) (b ∷ p) = a == b && has_prefix s p

-- strings.HasSuffix(s, p): the last len(p) bytes of s are p
unfoldable pub has_suffix : Bytes → Bytes → Bool
unfolding bytes_beq
has_suffix s p = leb (length p) (length s) && drop (length s - length p) s == p

-- strings.TrimPrefix(s, p)
unfoldable pub trim_prefix : Bytes → Bytes → Bytes
trim_prefix s p = if has_prefix s p then drop (length p) s else s

-- strings.TrimSuffix(s, p)
unfoldable pub trim_suffix : Bytes → Bytes → Bytes
unfolding has_suffix
trim_suffix s p = if has_suffix s p then take (length s - length p) s else s

upper_byte : ℕ → ℕ
upper_byte c = if leb b'a' c && leb c b'z' then c - 32 else c

-- strings.ToUpper on ASCII text
unfoldable pub to_upper : Bytes → Bytes
unfolding upper_byte
to_upper s = map upper_byte s

upper_byte-upper_byte : (c : ℕ) → upper_byte (upper_byte c) ≡ upper_byte c
unfolding upper_byte
upper_byte-upper_byte c = ground arith

pub to_upper-to_upper : (s : Bytes) → to_upper (to_upper s) ≡ to_upper s
unfolding to_upper
to_upper-to_upper [] = refl
to_upper-to_upper (c ∷ s) = ground (arith, upper_byte-upper_byte c, to_upper-to_upper s)

-- strings.Split(s, sep) for a separator of one byte: one field more than there are separators
unfoldable pub split : ℕ → Bytes → List Bytes
split sep [] = [] ∷ []
split sep (c ∷ s) =
    let rest = split sep s in
    if c == sep then [] ∷ rest else elim rest [ [] ↦ (c ∷ []) ∷ [] | w ∷ ws ↦ (c ∷ w) ∷ ws ]

unfoldable pub trim_left : ℕ → Bytes → Bytes
trim_left b [] = []
trim_left b (c ∷ s) = let rest = trim_left b s in if c == b then rest else c ∷ s

-- strings.Trim(s, b) for a cutset of one byte
unfoldable pub trim : ℕ → Bytes → Bytes
unfolding trim_left
trim b s = reverse (trim_left b (reverse (trim_left b s)))

is_space : ℕ → Bool
is_space c = c == b' ' || leb 9 c && leb c 13

abbrev flush : Bytes → List Bytes → List Bytes
flush [] ws = ws
flush (c ∷ w) ws = (c ∷ w) ∷ ws

-- the word that the text begins with, and the words behind it
words : Bytes → Bytes × List Bytes
unfolding is_space
words [] = ([], [])
words (c ∷ s) = let (w, ws) = words s in if is_space c then ([], flush w ws) else (c ∷ w, ws)

-- strings.Fields(s), on ASCII text
unfoldable pub fields : Bytes → List Bytes
unfolding words
fields s = let (w, ws) = words s in flush w ws

skip_space : Bytes → Bytes
skip_space [] = []
skip_space (c ∷ s) = let rest = skip_space s in if is_space c then rest else c ∷ s

-- strings.TrimSpace(s), on ASCII text
unfoldable pub trim_space : Bytes → Bytes
unfolding skip_space is_space
trim_space s = reverse (skip_space (reverse (skip_space s)))

pub has_prefix-append : (p s : Bytes) → has_prefix (p ++ s) p ≡ true
unfolding has_prefix
has_prefix-append [] s = refl
has_prefix-append (b ∷ p) s = ground (arith, has_prefix-append p s)

pub has_prefix→append : (s p : Bytes) → has_prefix s p ≡ true → s ≡ p ++ drop (length p) s
unfolding has_prefix
has_prefix→append s [] h = refl
has_prefix→append [] (b ∷ p) h = ground arith
has_prefix→append (a ∷ s) (b ∷ p) h = ground (arith, has_prefix→append s p)

pub has_prefix_iff : (s p : Bytes) → (has_prefix s p ≡ true) ↔ ((t : Bytes) × (s ≡ p ++ t))
has_prefix_iff s p =
    (λ h. (drop (length p) s, has_prefix→append s p h), λ (t, e). rw e (has_prefix-append p t))

-- A suffix, and what TrimSuffix leaves of the text.
pub has_suffix-append : (q p : Bytes) → has_suffix (q ++ p) p ≡ true
unfolding has_suffix
has_suffix-append q p =
    let e : length (q ++ p) - length p ≡ length q = omega (arith, length-append q p) in
    rw (e, drop-append q p) (ground (arith, ==_refl p, length-append q p))

pub trim_suffix-append : (q p : Bytes) → trim_suffix (q ++ p) p ≡ q
unfolding trim_suffix
trim_suffix-append q p =
    let e : length (q ++ p) - length p ≡ length q = omega (arith, length-append q p) in
    rw (has_suffix-append q p, e) (take-append q p)

pub has_suffix→append : (s p : Bytes) → has_suffix s p ≡ true → s ≡ trim_suffix s p ++ p
unfolding trim_suffix
has_suffix→append s p h =
    let n = length s - length p in
    let tail : drop n s ≡ p = (==_iff (drop n s) p).0 (unfold has_suffix in ground arith) in
    rw h (sym (take-append-drop n s) ∙ ap (λ t. take n s ++ t) tail)
