-- ===== src/Server/Steps/Kept.antt =====
-- What the steps of the commands of internal/protocol/resp3/extended.go keep.
use wavicle.Prelude.{
  ℕ, ◌<◌, Bytes, bytes_eq, true, false, ◌≡◌, refl, ap, ◌∙◌, arith, elem, List, ◌∷◌, to_upper,
  Option-cases, inl, inr, All-elem,
}
use wavicle.Core.{Hash, Expr, Time, Platform}
use wavicle.Storage.Store.{Store, frontier_store}
use wavicle.Storage.FrontierCache.{FrontierCache}
use wavicle.Storage.FrontierCache.Drop.{IsValid}
use wavicle.Storage.FrontierCache.Append.{IsUnder, append_atom-IsValid, append_atom-limit}
use wavicle.Storage.FrontierCache.Reads.{get_current-IsValid, get_current-kept, get_current-bytes}
use wavicle.Server.State.{Server}
use wavicle.Server.Values.{Runtime}
use wavicle.Server.Extended.{handler_of, handle_extended, replied}
use wavicle.Server.Steps.{Steps, here, looked, written, indexed}
use wavicle.Server.Steps.Dispatch.{Sound, looking, looking-Sound, handle_extended-Steps}

module _ {S : Type 0} (st : Store S) (now : Time) (P : S → Type 0)
    (looks : (path : Bytes) (x : S) → P x → P (st.get_current path now x).0) where
  Steps-writes :
      ((expr : Expr) (path : Bytes) (parents : List Hash) (expires_at : Time) (x : S)
        → P x
        → P (st.append_atom expr path parents expires_at now x).0)
      → {s t : Server S} → Steps st now true s t
      → P s.store
      → P t.store × t ≡ record s { store = t.store; key_types = t.key_types }
  Steps-writes writes here p = (p, refl)
  Steps-writes writes {s} (looked a path) p =
      let (q, e) = Steps-writes writes a p in
      (
        looks path _ q,
        ap (λ (u : Server S). record u { store = (st.get_current path now u.store).0 }) e,
      )
  Steps-writes writes (written a y expr path hs x) p =
      let (q, e) = Steps-writes writes a p in
      (
        writes expr path hs x _ q,
        ap (λ (u : Server S). record u { store = (st.append_atom expr path hs x now u.store).0 }) e,
      )
  Steps-writes writes (indexed a y types) p =
      let (q, e) = Steps-writes writes a p in
      (q, ap (λ (u : Server S). record u { key_types = types }) e)

  Steps-looks :
      {s t : Server S}
      → Steps st now false s t
      → P s.store
      → P t.store × t ≡ record s { store = t.store }
  Steps-looks here p = (p, refl)
  Steps-looks (looked a path) p =
      let (q, e) = Steps-looks a p in
      (
        looks path _ q,
        ap (λ (u : Server S). record u { store = (st.get_current path now u.store).0 }) e,
      )
  Steps-looks (written a y expr path hs x) p = absurd (ground (arith, y))
  Steps-looks (indexed a y types) p = absurd (ground (arith, y))

  -- STRLEN, LLEN, LRANGE, LINDEX, SMEMBERS, SCARD, SISMEMBER, ZSCORE, ZCARD, ZRANGE, HMGET, HLEN, HEXISTS,
  -- HKEYS, HVALS, XLEN, XRANGE, KEYS, SCAN, TYPE, PTTL and INFO, in any case and with any arguments, change
  -- nothing of the server but its store, and that by GetCurrent alone: a property of stores that
  -- GetCurrent keeps holds afterwards if it held before.
  pub handle_extended-looks :
      (go : Runtime) (uptime name : Bytes) (args : List Bytes) (s : Server S)
      → elem (to_upper name) looking ≡ true
      → P s.store
      → let t = (handle_extended go uptime st now (name ∷ args) s).0 in
        P t.store × t ≡ record s { store = t.store }
  unfolding handle_extended replied
  handle_extended-looks go uptime name args s m p =
      elim (Option-cases (handler_of go uptime st now (to_upper name) args)) [
        | inl e ↦ rw (e, handle_extended) (p, refl)
        | inr (h, e) ↦
            let sound =
              All-elem (λ cmd. Sound st now false (handler_of go uptime st now cmd args))
                (to_upper name) looking (looking-Sound go uptime st now args) m in
            rw (e, handle_extended) (Steps-looks ((sound.takes h e).from s) p)
      ]

-- a valid cache with a limit, under the ceiling
abbrev Sized : Platform → ℕ → FrontierCache → Type 0
Sized os limit f = IsValid f × IsUnder os f × f.max_memory_bytes ≡ limit

module _ (os : Platform) (now : Time) where
  get_current-Sized :
      (limit : ℕ) (path : Bytes) (f : FrontierCache)
      → Sized os limit f
      → Sized os limit ((frontier_store os).get_current path now f).0
  unfolding IsUnder
  get_current-Sized limit path f (v, under, e) =
      let (same, _) = get_current-kept path now f in
      let (w, _, _, _) = get_current-IsValid path now f v in
      (w, rw (same, get_current-bytes path now f) under, same ∙ e)

  append_atom-Sized :
      (limit : ℕ) (expr : Expr) (path : Bytes) (parents : List Hash) (expires_at : Time)
      (f : FrontierCache)
      → 0 < limit
      → Sized os limit f
      → Sized os limit ((frontier_store os).append_atom expr path parents expires_at now f).0
  append_atom-Sized limit expr path parents expires_at f some_limit (v, under, e) =
      let (w, low, _) = append_atom-IsValid os expr path expires_at now f v (rw e some_limit) in
      (w, low, append_atom-limit os expr path expires_at now f ∙ e)

  -- On a server over a valid FrontierCache with a memory limit, whose byte count is under 90% of the
  -- limit or at most 80% of it, every extended command, known or not, with any arguments, leaves
  -- a cache of this kind with the same limit, and changes nothing of the server but the store and the index of types.
  pub handle_extended-IsValid :
      (go : Runtime) (uptime : Bytes) (args : List Bytes) (s : Server FrontierCache)
      → IsValid s.store
      → IsUnder os s.store
      → 0 < s.store.max_memory_bytes
      → let t = (handle_extended go uptime (frontier_store os) now args s).0 in
        IsValid t.store
        × IsUnder os t.store
        × t.store.max_memory_bytes ≡ s.store.max_memory_bytes
        × t ≡ record s { store = t.store; key_types = t.key_types }
  handle_extended-IsValid go uptime args s v under limited =
      let limit = s.store.max_memory_bytes in
      let ((w, low, same), frame) =
        Steps-writes (frontier_store os) now (Sized os limit) (get_current-Sized limit)
          (λ expr path hs x f p. append_atom-Sized limit expr path hs x f limited p)
          (handle_extended-Steps go uptime (frontier_store os) now args s) (v, under, refl) in
      (w, low, same, frame)
