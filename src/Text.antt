-- ===== src/Text.antt =====
-- Texts as lists of bytes, and the functions of Go's `strings` package that the program calls.
-- Upper and lower case and white space are those of ASCII.
mod Defs
mod Laws
unfoldable pub use Defs.*
pub use Laws.*
