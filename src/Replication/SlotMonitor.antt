-- ===== src/Replication/SlotMonitor.antt =====
-- internal/replication/slotmon.go: the watchdog over the replication slot, and the guard of
-- internal/protocol/resp3/server.go that reads the state it publishes.
pub mod Guard
use wavicle.Prelude.{
  ℕ, suc, ◌+◌, ◌*◌, ◌^◌, Bytes, Bool, true, false, not, ◌&&◌, ltb, leb, if◌then◌else◌, Option, none,
  some, ℤ, pos, negsuc, Outcome, ok, err,
}
use wavicle.Core.{Time}

-- Go's `<=` on int64
unfoldable pub int_le : ℤ → ℤ → Bool
int_le (pos m) (pos n) = leb m n
int_le (pos m) (negsuc n) = false
int_le (negsuc m) (pos n) = true
int_le (negsuc m) (negsuc n) = leb n m

-- SlotLevel
pub data SlotLevel : Type 0 where
  slot_ok : SlotLevel
  slot_warn : SlotLevel
  slot_page : SlotLevel

-- The fields of SlotInfo that the monitor reads; the slot's name only stands in the log.
pub record SlotInfo : Type 0 where
  pub active : Bool
  pub lag_bytes : ℤ

-- The answer of QuerySlotInfo: a text for an error, and no value for a missing slot.
abbrev pub SlotQuery : Type 0
SlotQuery = Outcome Bytes (Option SlotInfo)

-- SlotMonitorConfig without the data source; `is_shared` tells that State is not nil.
pub record SlotMonitorConfig : Type 0 where
  pub interval : ℕ
  pub warn_bytes : ℤ
  pub page_bytes : ℤ
  pub is_shared : Bool

-- NewSlotMonitor's interval of 15 s in nanoseconds, for one that is not positive
unfoldable pub new_slot_monitor : SlotMonitorConfig → SlotMonitorConfig
new_slot_monitor cfg = if leb cfg.interval 0 then record cfg { interval = 15 * 10 ^ 9 } else cfg

-- ClassifySlot, without its message
unfoldable pub classify_slot : SlotQuery → ℤ → ℤ → SlotLevel
unfolding int_le
classify_slot (err _) warn page = slot_page
classify_slot (ok none) warn page = slot_page
classify_slot (ok (some info)) warn page =
    if not info.active
    then slot_page
    else if int_le page info.lag_bytes
    then slot_page
    else if int_le warn info.lag_bytes
    then slot_warn
    else slot_ok

-- The monitor's state: the published number and the time of the last PAGE.
pub record SlotMonitor : Type 0 where
  pub state : ℤ
  pub last_page : Time

-- The lines that CheckOnce logs.
pub data SlotLog : Type 0 where
  nothing : SlotLog
  page : SlotLog
  warn : SlotLog
  recovered : SlotLog

-- `m.cfg.State.Store(...)`
unfoldable pub publish : SlotQuery → ℤ
publish (err _) = negsuc 1
publish (ok none) = negsuc 1
publish (ok (some info)) = if not info.active then negsuc 1 else info.lag_bytes

-- the switch over the level; the time of the last PAGE, and the log
unfoldable pub escalate : ℕ → SlotLevel → Time → Time → Time × SlotLog
escalate interval slot_page now last = (now, if ltb (last + interval) now then page else nothing)
escalate interval slot_warn now last = (0, warn)
escalate interval slot_ok now last = (0, if ltb 0 last then recovered else nothing)

-- CheckOnce, on the answer of the query and one reading of the clock
unfoldable pub check_once :
    SlotMonitorConfig → SlotQuery → Time → SlotMonitor → SlotMonitor × SlotLevel × SlotLog
unfolding classify_slot publish escalate
check_once cfg query now m =
    let level = classify_slot query cfg.warn_bytes cfg.page_bytes in
    let e = escalate cfg.interval level now m.last_page in
    (
      record { state = if cfg.is_shared then publish query else m.state; last_page = e.0 },
      level,
      e.1,
    )
