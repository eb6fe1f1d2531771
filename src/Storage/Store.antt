-- ===== src/Storage/Store.antt =====
-- internal/storage/adapter.go: the interface that the proof engine and the server take a storage
-- engine by, and FrontierCache behind it. A call takes the clock's reading.
use wavicle.Prelude.{Bytes, Bool, Option, List, Dict, Outcome, ok}
use wavicle.Core.{Hash, Expr, Atom, Time, Platform}
use wavicle.Storage.FrontierCache
use wavicle.Storage.FrontierCache.{FrontierCache}

-- `Store`; an error is its text. GetParents and Close are not called by the engine and the server.
pub record Store (S : Type 0) : Type 0 where
  pub append_atom : Expr → Bytes → List Hash → Time → Time → S → S × Outcome Bytes Hash
  pub get_current : Bytes → Time → S → S × Option Atom
  pub get_atom : Hash → Time → S → Option Atom
  pub frontier_paths : Time → S → List Bytes
  pub get_current_hash : Bytes → Time → S → Option Hash
  pub find_changed_paths : Dict Bytes Hash → Time → S → List Bytes
  pub verify_version_vector : Dict Bytes Hash → Time → S → Bool

-- FrontierCache as a Store: its AppendAtom keeps no parents and never fails.
abbrev pub frontier_store : Platform → Store FrontierCache
frontier_store os = record {
  append_atom = λ expr path parents expires_at now f.
      let r = FrontierCache.append_atom os expr path expires_at now f in (r.0, ok r.1);
  get_current = FrontierCache.get_current;
  get_atom = FrontierCache.get_atom;
  frontier_paths = λ now f. FrontierCache.live_paths now f.entries;
  get_current_hash = FrontierCache.get_current_hash;
  find_changed_paths = FrontierCache.find_changed_paths;
  verify_version_vector = FrontierCache.verify_version_vector;
}
