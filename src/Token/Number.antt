-- ===== src/Token/Number.antt =====
-- token/token.go: numbers. `Digits` has the runs of digits, `Core` the numbers of YAML 1.2's core
-- schema, `Legacy` those of YAML 1.1.
mod Digits
mod Core
mod Legacy
mod Value
pub mod Exact
pub mod Separators
pub mod Groups
unfoldable pub use Digits.*
unfoldable pub use Core.*
unfoldable pub use Legacy.*
unfoldable pub use Value.*
