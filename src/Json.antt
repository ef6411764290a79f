-- ===== src/Json.antt =====
-- The values that the program moves about as JSON: Python's `None`, `bool`, numbers, `str`, `list`
-- and `dict`. A number other than a natural one is kept by the text that `json.dumps` prints.
pub mod Text
pub mod Defs
unfoldable pub use Defs.*
