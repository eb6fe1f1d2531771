-- ===== src/Replication.antt =====
-- The parts of internal/replication that stand apart from a database.
pub mod SlotMonitor
