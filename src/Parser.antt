-- ===== src/Parser.antt =====
-- parser: the parts of it that stand alone.
pub mod Version
pub mod Retype
pub mod Scope
mod VersionTests
