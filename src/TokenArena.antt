-- ===== src/TokenArena.antt =====
-- internal/tokenarena/tokenarena.go: the tokens of a parse in chunks that are filled again. A pointer to
-- a chunk is its number in the heap `chunks`; the linked lists are the lists of these numbers. A
-- sequence number is not negative.
mod Chunks
mod Tape
mod Saves
pub mod Counts
pub mod Sound
pub mod Add
pub mod Free
pub mod Sweep
pub mod SaveSound
pub mod Trace
pub mod Reclaim
pub mod Kept
pub mod Order
pub mod Saving
mod Tests
unfoldable pub use Chunks.*
unfoldable pub use Tape.*
unfoldable pub use Saves.*
