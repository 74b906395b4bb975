-- ===== src/Text.antt =====
-- Go's strings and what the program uses of package strings, over code points: a text is the list
-- of the runes of a valid UTF-8 string.
mod Defs
mod Laws
pub mod FilePath
pub mod Keyed
pub mod Decimal
pub mod Split
pub mod Trim
pub mod Search
pub mod Lines
mod Tests
unfoldable pub use Defs.*
pub use Laws.*
