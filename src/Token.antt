-- ===== src/Token.antt =====
-- token/token.go and token/lines.go.
pub mod Position
pub mod Spans
pub mod Origin
pub mod Make
pub mod Lookback
pub mod Kind
pub mod Keyword
pub mod Number
pub mod KeyName
pub mod Scalar
mod Tests
mod NumberTests
mod MakeTests
mod LookbackTests
