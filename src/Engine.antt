-- ===== src/Engine.antt =====
-- internal/engine.
pub mod ProofCache
pub mod Combinators
pub mod Proof
pub mod Sql
