-- ===== src/Scanner.antt =====
-- internal/scanner: the parts of it that stand alone.
pub mod Escape
pub mod EscapeRefusal
pub mod EscapeHex
pub mod Swar
pub mod Lanes
pub mod Masks
pub mod First
pub mod Stops
pub mod Exact
pub mod Printable
pub mod PrintableTail
pub mod PrintableWords
pub mod PrintableLoop
mod Tests
mod WordTests
