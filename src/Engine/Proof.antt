-- ===== src/Engine/Proof.antt =====
-- internal/engine/proof.go: proofs and the nodes they are made of, as a heap. A *ProofNode is an
-- index into the list of the proof's nodes.
pub mod Reduce
pub mod Compose
pub mod Incremental
pub mod Leaf
pub mod Renewal
pub mod Fresh
use wavicle.Prelude.{
  ℕ, suc, Bytes, Bool, true, false, ◌≡◌, refl, if◌then◌else◌, ◌==◌, bytes_eq, Option, none, some,
  List, [], ◌∷◌, ◌++◌, Dict, lookup, insert, Outcome, ok, err, get_elem?, set, length,
}
use wavicle.Core.{Hash, Value, Expr, Atom, Time}
use wavicle.Storage.Store.{Store}
use wavicle.Engine.Combinators.{EngineError, panic, unfinished}

-- ProofNode
pub record ProofNode : Type 0 where
  pub expr : Expr
  pub children : List ℕ
  pub parent : Option ℕ
  pub cached_value : Option Value
  pub dirty : Bool
  pub merkle_root : Hash
  pub merkle_valid : Bool
  pub source_hash : Hash
  pub source_path : Bytes

-- What the engine works on: the store, the nodes, the index of their paths, and the counters.
pub record Work (S : Type 0) : Type 0 where
  pub store : S
  pub nodes : List ProofNode
  pub index : Dict Bytes ℕ
  pub hits : ℕ
  pub misses : ℕ

-- a proof's work before it has nodes
abbrev pub no_work : {S : Type 0} → S → Work S
no_work s = record { store = s; nodes = []; index = []; hits = 0; misses = 0 }

abbrev pub Run : Type 0 → Type 0 → Type 0
Run S A = Work S → Outcome EngineError A × Work S

module _ {S : Type 0} where
  abbrev pub pure : {A : Type 0} → A → Run S A
  pure a w = (ok a, w)

  abbrev pub raise : {A : Type 0} → EngineError → Run S A
  raise e w = (err e, w)

  abbrev pub continue : {A B : Type 0} → Outcome EngineError A → (A → Run S B) → Run S B
  continue (err e) next w = (err e, w)
  continue (ok a) next w = next a w

  infixl 5 ◌>>=◌ ◌>>◌
  abbrev pub ◌>>=◌ : {A B : Type 0} → Run S A → (A → Run S B) → Run S B
  ◌>>=◌ m next w = let r = m w in continue r.0 next r.1

  abbrev pub ◌>>◌ : {A B : Type 0} → Run S A → Run S B → Run S B
  m >> n = m >>= λ _. n

  abbrev pub loaded : Option ProofNode → Run S ProofNode
  loaded none = raise panic
  loaded (some n) = pure n

  -- `*node`
  unfoldable pub load : ℕ → Run S ProofNode
  load e w = loaded (get_elem? w.nodes e) w

  -- an assignment to fields of a node
  unfoldable pub save : ℕ → ProofNode → Run S (Unit {0})
  save e n w = (ok tt, record w { nodes = set w.nodes e n })

  -- `proof.ReduceStats.CacheHits++`
  unfoldable pub count_hit : Run S (Unit {0})
  count_hit w = (ok tt, record w { hits = suc w.hits })

  unfoldable pub count_miss : Run S (Unit {0})
  count_miss w = (ok tt, record w { misses = suc w.misses })

  unfoldable pub for_each : {A : Type 0} → (A → Run S (Unit {0})) → List A → Run S (Unit {0})
  for_each f [] = pure tt
  for_each f (x ∷ xs) = do f x; for_each f xs

  -- the store's methods
  unfoldable pub read : Store S → Bytes → Time → Run S (Option Atom)
  read st path now w = let r = st.get_current path now w.store in (ok r.1, record w { store = r.0 })
