-- ===== src/Replication/SlotMonitor/Guard.antt =====
-- The stale guard of internal/protocol/resp3/server.go: reads fail closed.
use wavicle.Prelude.{
  ◌≡◌, refl, ◌+◌, Bool, true, ◌&&◌, ltb, if◌then◌else◌, Option, none, some, ℤ, pos, negsuc, ◌↔◌,
  inl, inr, ok, err, Bool-cases, arith, is_some, ◌≢◌, ℕ, ◌==◌, nat_eq,
}
use wavicle.Core.{Time}
use wavicle.Replication.SlotMonitor.{
  int_le, slot_ok, slot_warn, slot_page, SlotQuery, SlotMonitorConfig, SlotMonitor, classify_slot,
  publish, check_once,
}

-- The errors of staleRefused.
pub data Stale : Type 0 where
  blind : Stale
  lagging : ℤ → ℤ → Stale
  silent : Stale

-- The stale guard's fields of the server: the slot's state with the threshold, and the poller's last
-- clean tick with the longest silence, none for a nil pointer. Times are nanoseconds.
pub record StaleGuard : Type 0 where
  pub slot : Option (ℤ × ℤ)
  pub poll : Option (Time × ℤ)

-- the switch over the slot's state
unfoldable pub slot_refused : ℤ → ℤ → Option Stale
unfolding int_le
slot_refused (negsuc n) limit = if n == 1 then some blind else none
slot_refused (pos n) limit = if int_le limit (pos n) then some (lagging (pos n) limit) else none

-- the poller's silence against its bound
unfoldable pub poll_refused : Time → ℤ → Time → Option Stale
poll_refused last (negsuc n) now = none
poll_refused last (pos max) now =
    if ltb 0 max && ltb 0 last && ltb (last + max) now then some silent else none

first_of : Option Stale → Option Stale → Option Stale
first_of none second = second
first_of (some e) second = some e

-- staleRefused
unfoldable pub stale_refused : StaleGuard → Time → Option Stale
unfolding slot_refused poll_refused first_of
stale_refused g now =
    first_of (elim g.slot [ none ↦ none | some (state, limit) ↦ slot_refused state limit ])
      (elim g.poll [ none ↦ none | some (last, max) ↦ poll_refused last max now ])

-- PostgreSQL measures a lag that is not negative.
unfoldable pub Measured : SlotQuery → Type 0
Measured (err _) = Unit
Measured (ok none) = Unit
Measured (ok (some info)) = (n : ℕ) × (info.lag_bytes ≡ pos n)

abbrev pub refuses : StaleGuard → Time → Bool
refuses g now = is_some (stale_refused g now)

-- the guard of a server that shares the monitor's state and threshold
abbrev pub slot_guard : SlotMonitorConfig → SlotMonitor → StaleGuard
slot_guard cfg m = record { slot = some (m.state, cfg.page_bytes); poll = none }

abbrev Agrees : ℤ → ℤ → SlotQuery → Type 0
Agrees warn limit query =
    (is_some (first_of (slot_refused (publish query) limit) none) ≡ true)
    ↔ (classify_slot query warn limit ≡ slot_page)

abbrev lagging_by : ℕ → SlotQuery
lagging_by n = ok (some (record { active = true; lag_bytes = pos n }))

not_page : (b : Bool) → (if b then slot_warn else slot_ok) ≢ slot_page
not_page b = ground arith

lagging-Agrees : (warn limit : ℤ) (n : ℕ) → Agrees warn limit (lagging_by n)
unfolding first_of slot_refused classify_slot publish
lagging-Agrees warn limit n = elim (Bool-cases (int_le limit (pos n))) [
  | inl l ↦ rw l (λ _. refl, λ _. refl)
  | inr l ↦ rw l (λ h. ground arith, λ h. absurd (not_page (int_le warn (pos n)) h))
]

Measured-Agrees : (warn limit : ℤ) (query : SlotQuery) → Measured query → Agrees warn limit query
unfolding first_of slot_refused classify_slot publish Measured
Measured-Agrees warn limit (err _) known = (λ _. refl, λ _. refl)
Measured-Agrees warn limit (ok none) known = (λ _. refl, λ _. refl)
Measured-Agrees warn limit (ok (some info)) (n, e) = elim (Bool-cases info.active) [
  | inr a ↦ rw a (λ _. refl, λ _. refl)
  | inl a ↦ rw (a, e) (unfold first_of in lagging-Agrees warn limit n)
]

-- For a monitor that shares its state and a lag that is not negative, after CheckOnce a server
-- with the same page threshold and no MySQL poller refuses reads, at any time, exactly when the level is PAGE.
pub check_once-refuses_iff :
    (cfg : SlotMonitorConfig) (query : SlotQuery) (now later : Time) (m : SlotMonitor)
    → cfg.is_shared ≡ true
    → Measured query
    → let r = check_once cfg query now m in
      (refuses (slot_guard cfg r.0) later ≡ true) ↔ (r.1 ≡ slot_page)
unfolding check_once stale_refused first_of
check_once-refuses_iff cfg query now later m shared known =
    rw shared (Measured-Agrees cfg.warn_bytes cfg.page_bytes query known)
