-- ===== src/Core/Order.antt =====
-- The serialised form of a record does not depend on the order in which the map is walked.
use wavicle.Prelude.{
  Bytes, ◌≡◌, ◌≢◌, refl, ap, ◌∙◌, true, false, ◌==◌, ==_iff, nat_eq, bytes_eq, Bool-cases, inl, inr,
  List, [], ◌∷◌, arith,
}
use wavicle.Core.{
  Value, dict, Fields, field, Platform, str_less, put_sorted, join_sorted, serialize,
  serialize_fields,
}

less_asym : (s t : Bytes) → str_less s t ≡ true → str_less t s ≡ false
unfolding str_less
less_asym [] [] h = refl
less_asym [] (b ∷ t) h = refl
less_asym (a ∷ s) [] h = ground arith
less_asym (a ∷ s) (b ∷ t) h = ground (arith, less_asym s t)

less_total : (s t : Bytes) → s ≢ t → str_less s t ≡ false → str_less t s ≡ true
unfolding str_less
less_total [] [] n h = absurd (n refl)
less_total [] (b ∷ t) n h = ground arith
less_total (a ∷ s) [] n h = refl
less_total (a ∷ s) (b ∷ t) n h = elim (Bool-cases (a == b)) [
  | inl e ↦ let same = (==_iff a b).0 e in ground (arith, less_total s t (λ p. n (cc (same, p))), e)
  | inr d ↦ ground arith
]

less_between : (h j k : Bytes) → str_less h j ≡ false → str_less h k ≡ true → str_less j k ≡ true
unfolding str_less
less_between [] [] k p q = q
less_between [] (b ∷ j) k p q = ground arith
less_between (a ∷ h) j [] p q = ground arith
less_between (a ∷ h) [] (c ∷ k) p q = refl
less_between (a ∷ h) (b ∷ j) (c ∷ k) p q = ground (arith, less_between h j k)

put_sorted_comm :
    (k j : Bytes) (s t : Bytes) (r : List (Bytes × Bytes))
    → k ≢ j
    → put_sorted k s (put_sorted j t r) ≡ put_sorted j t (put_sorted k s r)
unfolding put_sorted
put_sorted_comm k j s t [] n = ground (arith, less_asym k j, less_total k j n, less_asym j k)
put_sorted_comm k j s t ((h, u) ∷ r) n = elim (Bool-cases (str_less h k)) [
  | inl hk ↦ elim (Bool-cases (str_less h j)) [
    | inl hj ↦ ground (arith, put_sorted_comm k j s t r n)
    | inr hj ↦ ground (arith, less_between h j k, less_asym j k)
  ]
  | inr hk ↦ elim (Bool-cases (str_less h j)) [
    | inl hj ↦ ground (arith, less_between h k j, less_asym k j)
    | inr hj ↦ ground (arith, less_asym k j, less_total k j n, less_asym j k)
  ]
]

-- Two walks of one map: neighbours with different keys may change places, as often as one likes.
pub data Reordered : Fields → Fields → Type 0 where
  same : (fs : Fields) → Reordered fs fs
  swap :
      {k j : Bytes} {v w : Value} (fs : Fields)
      → k ≢ j
      → Reordered (field k v (field j w fs)) (field j w (field k v fs))
  under :
      (k : Bytes) (v : Value) {fs gs : Fields}
      → Reordered fs gs
      → Reordered (field k v fs) (field k v gs)
  then_also : {fs gs hs : Fields} → Reordered fs gs → Reordered gs hs → Reordered fs hs

module _ (os : Platform) where
  serialize_fields-Reordered :
      {fs gs : Fields} → Reordered fs gs → serialize_fields os fs ≡ serialize_fields os gs
  unfolding serialize_fields
  serialize_fields-Reordered (same fs) = refl
  serialize_fields-Reordered (swap {k} {j} {v} {w} fs n) =
      put_sorted_comm k j (serialize os v) (serialize os w) (serialize_fields os fs) n
  serialize_fields-Reordered (under k v r) =
      ap (put_sorted k (serialize os v)) (serialize_fields-Reordered r)
  serialize_fields-Reordered (then_also r q) =
      serialize_fields-Reordered r ∙ serialize_fields-Reordered q

  -- However the entries of a record are walked, its serialised form is the same.
  pub serialize-Reordered :
      {fs gs : Fields} → Reordered fs gs → serialize os (dict fs) ≡ serialize os (dict gs)
  unfolding serialize
  serialize-Reordered r = ap join_sorted (serialize_fields-Reordered r)
