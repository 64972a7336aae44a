-- ===== src/Key.antt =====
-- parser/key.
pub mod Set
pub mod Ledger
mod Tests
