-- ===== src/Server/Steps.antt =====
-- What a command of internal/protocol/resp3/server.go and extended.go may do to a server: looks at keys, and, if it
-- writes, atoms that it appends and changes of the index.
pub mod Values
pub mod Reads
pub mod Writes
pub mod Dispatch
pub mod Kept
use wavicle.Prelude.{
  ◌≡◌, Bytes, Bool, true, false, if◌then◌else◌, Dict, Option, none, some, List, [], ◌∷◌, Outcome,
  ok, err,
}
use wavicle.Core.{Hash, Expr, Time}
use wavicle.Storage.Store.{Store}
use wavicle.Server.State.{Server, KeyType, Action, pure, raise, ◌>>=◌, ◌>>◌, continue}
use wavicle.Server.Values.{given, recover, recovered}

-- a server that the clients' commands at one time lead to; without `writes` they look only
pub data Steps {S : Type 0} (st : Store S) (now : Time) (writes : Bool) (s : Server S)
    : Server S → Type 0 where
  here : Steps st now writes s s
  looked :
      {t : Server S}
      → Steps st now writes s t
      → (path : Bytes)
      → Steps st now writes s (record t { store = (st.get_current path now t.store).0 })
  written :
      {t : Server S}
      → Steps st now writes s t
      → writes ≡ true
      → (expr : Expr) (path : Bytes) (parents : List Hash) (expires_at : Time)
      → Steps st now writes s
          (record t { store = (st.append_atom expr path parents expires_at now t.store).0 })
  indexed :
      {t : Server S}
      → Steps st now writes s t
      → writes ≡ true
      → (types : Dict Bytes KeyType) → Steps st now writes s (record t { key_types = types })

module _ {S : Type 0} {st : Store S} {now : Time} {w : Bool} where
  pub Steps-trans :
      {s t u : Server S} → Steps st now w s t → Steps st now w t u → Steps st now w s u
  Steps-trans a here = a
  Steps-trans a (looked b path) = looked (Steps-trans a b) path
  Steps-trans a (written b y e p hs x) = written (Steps-trans a b) y e p hs x
  Steps-trans a (indexed b y d) = indexed (Steps-trans a b) y d

-- an action that takes such steps from every server
pub record Takes {S E A : Type 0} (st : Store S) (now : Time) (w : Bool) (m : Action S E A)
    : Type 0 where
  pub from : (s : Server S) → Steps st now w s (m s).0

module _ {S E A : Type 0} {st : Store S} {now : Time} {w : Bool} where
  pub Takes-pure : (a : A) → Takes {E = E} st now w (pure a)
  Takes-pure a = record { from = λ s. here }

  pub Takes-raise : (e : E) → Takes {A = A} st now w (raise e)
  Takes-raise e = record { from = λ s. here }

  pub Takes-if :
      (b : Bool) (m n : Action S E A)
      → Takes st now w m
      → Takes st now w n
      → Takes st now w (if b then m else n)
  Takes-if true m n p q = p
  Takes-if false m n p q = q

module _ {S E A B : Type 0} {st : Store S} {now : Time} {w : Bool} where
  pub Takes-given :
      (o : Option A) (m : Action S E B) (f : A → Action S E B)
      → Takes st now w m
      → ((a : A) → Takes st now w (f a))
      → Takes st now w (given o m f)
  unfolding given
  Takes-given none m f p q = p
  Takes-given (some a) m f p q = q a

  continue-Steps :
      (f : A → Action S E B) (t : Server S) (o : Outcome E A)
      → ((a : A) → Takes st now w (f a))
      → Steps st now w t (continue f t o).0
  continue-Steps f t (err e) q = here
  continue-Steps f t (ok a) q = (q a).from t

  pub Takes-bind :
      (m : Action S E A) (f : A → Action S E B)
      → Takes st now w m
      → ((a : A) → Takes st now w (f a))
      → Takes st now w (m >>= f)
  Takes-bind m f p q = record {
    from = λ s. Steps-trans (p.from s) (continue-Steps f (m s).0 (m s).1 q);
  }

module _ {S E F A : Type 0} {st : Store S} {now : Time} {w : Bool} where
  recovered-Steps :
      (f : E → Action S F A) (s t : Server S) (o : Outcome E A)
      → Steps st now w s t
      → ((e : E) → Takes st now w (f e))
      → Steps st now w s (recovered f t o).0
  recovered-Steps f s t (err e) p q = Steps-trans p ((q e).from t)
  recovered-Steps f s t (ok a) p q = p

  pub Takes-recover :
      (m : Action S E A) (f : E → Action S F A)
      → Takes st now w m
      → ((e : E) → Takes st now w (f e))
      → Takes st now w (recover m f)
  unfolding recover
  Takes-recover m f p q = record { from = λ s. recovered-Steps f s (m s).0 (m s).1 (p.from s) q }

pub ruleset steps = (Takes-pure, Takes-raise, Takes-if, Takes-given, Takes-bind, Takes-recover)
