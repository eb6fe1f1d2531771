-- ===== src/Prelude/Containers.antt =====
-- Go's container/list. An element is known by its address, a number that is never used twice;
-- the list maps the addresses of its elements to their values, the front first.
use Prim.Native.Nat.{ℕ, suc, ◌<◌}
use mathlib.Core.List.{[], ◌∷◌}
use mathlib.Core.Option.{Option, none, some}
use wavicle.Prelude.Tests.{if◌then◌else◌, nat_eq, ◌==◌}
use wavicle.Prelude.Lists.{Distinct, All}
use wavicle.Prelude.Maps.{Dict, keys, lookup, delete, insert}

pub record Linked {ℓ} (V : Type ℓ) : Type ℓ where
  pub nodes : Dict ℕ V
  pub fresh : ℕ

module _ {ℓ} {V : Type ℓ} where
  -- list.New()
  abbrev pub no_nodes : Linked V
  no_nodes = record { nodes = []; fresh = 0 }

  -- PushFront; the new element's address is `l.fresh`
  abbrev pub push_front : V → Linked V → Linked V
  push_front v l = record { nodes = (l.fresh, v) ∷ l.nodes; fresh = suc l.fresh }

  -- Remove(e)
  abbrev pub remove : ℕ → Linked V → Linked V
  remove e l = record l { nodes = delete e l.nodes }

  -- MoveToFront(e); an element of another list is ignored
  abbrev pub move_to_front : ℕ → Linked V → Linked V
  move_to_front e l = elim (lookup e l.nodes) [
    | none ↦ l
    | some v ↦ record l { nodes = insert e v l.nodes }
  ]

  -- Back()
  unfoldable pub back : Dict ℕ V → Option (ℕ × V)
  back [] = none
  back (n ∷ []) = some n
  back (_ ∷ n ∷ ns) = back (n ∷ ns)

  -- `e.Value = v`
  unfoldable pub assign : ℕ → V → Dict ℕ V → Dict ℕ V
  assign e v [] = []
  assign e v ((d, w) ∷ ns) =
      let rest = assign e v ns in if d == e then (d, v) ∷ ns else (d, w) ∷ rest

  -- The addresses are distinct and were handed out before.
  pub record IsSound (l : Linked V) : Type 0 where
    pub distinct : Distinct (keys l.nodes)
    pub bounded : All (λ e. e < l.fresh) (keys l.nodes)
