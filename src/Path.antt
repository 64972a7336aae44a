-- ===== src/Path.antt =====
-- internal/yamlpath/path.go: the language of paths into a document.
pub mod Step
pub mod Parse
pub mod Printable
pub mod Digits
pub mod StepRead
pub mod RoundTrip
pub mod Total
pub mod Escapes
pub mod Quoted
pub mod Brackets
mod Tests
