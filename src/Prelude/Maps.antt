-- ===== src/Prelude/Maps.antt =====
-- Go's `map` as an association list. The order of its entries stands for the order in which a
-- `range` loop happens to meet them.
use Prim.Native.Nat.{◌+◌}
use mathlib.Core.Path.{◌≡◌, refl}
use mathlib.Core.Bool.{false}
use mathlib.Core.List.{List, [], ◌∷◌, map}
use mathlib.Core.Option.{Option, none, some}
use mathlib.Core.Logic.{inl, inr}
use native.Mathlib.Omega.{arith}
use wavicle.Prelude.Tests.{if◌then◌else◌, is_some, Bool-cases, Comparable, ◌==◌, ==_iff, ==_refl}
use wavicle.Prelude.Lists.{length, elem, Distinct, All}

abbrev pub Dict {ℓ κ} : Type ℓ → Type κ → Type (ℓ ⊔ κ)
Dict K V = List (K × V)

abbrev pub keys {ℓ κ} : {K : Type ℓ} {V : Type κ} → Dict K V → List K
keys m = map (λ e. e.0) m

module _ {ℓ κ} {K : Type ℓ} {V : Type κ} ⦃e : Comparable K⦄ where
  -- `v, ok := m[k]`
  unfoldable pub lookup : K → Dict K V → Option V
  lookup k [] = none
  lookup k ((j, v) ∷ m) = if j == k then some v else lookup k m

  -- `delete(m, k)`
  unfoldable pub delete : K → Dict K V → Dict K V
  delete k [] = []
  delete k ((j, v) ∷ m) = let rest = delete k m in if j == k then rest else (j, v) ∷ rest

  -- `m[k] = v`
  unfoldable pub insert : K → V → Dict K V → Dict K V
  insert k v m = (k, v) ∷ delete k m

  pub lookup-delete :
      (k j : K) (m : Dict K V) → lookup j (delete k m) ≡ (if k == j then none else lookup j m)
  unfolding lookup delete
  lookup-delete k j [] = ground arith
  lookup-delete k j ((i, v) ∷ m) =
      ground (arith, lookup-delete k j m, ==_iff i k, ==_iff i j, ==_iff k j)

  pub lookup-insert :
      (k j : K) (v : V) (m : Dict K V)
      → lookup j (insert k v m) ≡ (if k == j then some v else lookup j m)
  unfolding lookup insert
  lookup-insert k j v m = simp lookup-delete (ground arith)

  pub elem-keys-delete :
      (k j : K) (m : Dict K V)
      → elem j (keys (delete k m)) ≡ (if k == j then false else elem j (keys m))
  unfolding elem delete
  elem-keys-delete k j [] = ground arith
  elem-keys-delete k j ((i, v) ∷ m) =
      ground (arith, elem-keys-delete k j m, ==_iff i k, ==_iff i j, ==_iff k j)

  pub delete-Distinct : (k : K) (m : Dict K V) → Distinct (keys m) → Distinct (keys (delete k m))
  unfolding delete
  delete-Distinct k [] h = tt
  delete-Distinct k ((i, v) ∷ m) h = ground (arith, delete-Distinct k m, elem-keys-delete k i m)

  -- a key put in front of what `delete` leaves
  pub front-Distinct :
      (k : K) (m : Dict K V)
      → Distinct (keys m)
      → (elem k (keys (delete k m)) ≡ false) × Distinct (keys (delete k m))
  front-Distinct k m h = (ground (arith, elem-keys-delete k k m, ==_refl k), delete-Distinct k m h)

  pub insert-Distinct :
      (k : K) (v : V) (m : Dict K V) → Distinct (keys m) → Distinct (keys (insert k v m))
  unfolding insert
  insert-Distinct k v m h = front-Distinct k m h

  pub elem-keys-lookup : (k : K) (m : Dict K V) → elem k (keys m) ≡ is_some (lookup k m)
  unfolding lookup elem
  elem-keys-lookup k [] = refl
  elem-keys-lookup k ((i, v) ∷ m) = ground (arith, elem-keys-lookup k m)

  pub delete_absent : (k : K) (m : Dict K V) → lookup k m ≡ none → delete k m ≡ m
  unfolding lookup delete
  delete_absent k [] h = refl
  delete_absent k ((i, v) ∷ m) h = ground (arith, delete_absent k m)

  pub lookup_new : (k : K) (m : Dict K V) → elem k (keys m) ≡ false → lookup k m ≡ none
  lookup_new k m h = ground (arith, elem-keys-lookup k m)

  pub delete_new : (k : K) (m : Dict K V) → elem k (keys m) ≡ false → delete k m ≡ m
  delete_new k m h = delete_absent k m (lookup_new k m h)

  pub length-delete :
      (k : K) (v : V) (m : Dict K V)
      → Distinct (keys m)
      → lookup k m ≡ some v
      → length (delete k m) + 1 ≡ length m
  unfolding lookup delete
  length-delete k v [] d h = ground arith
  length-delete k v ((i, w) ∷ m) d h = ground (
    arith,
    length-delete k v m,
    delete_absent k m,
    elem-keys-lookup i m,
    ==_iff i k,
    lookup_new k m,
  )

  pub delete-All {κ'} :
      (P : K → Type κ') (k : K) (m : Dict K V) → All P (keys m) → All P (keys (delete k m))
  unfolding delete
  delete-All P k [] h = tt
  delete-All P k ((i, v) ∷ m) (p, h) = elim (Bool-cases (i == k)) [
    | inl e ↦ rw e (delete-All P k m h)
    | inr n ↦ rw n (p, delete-All P k m h)
  ]
