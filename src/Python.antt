-- ===== src/Python.antt =====
-- What the program uses of Python itself: exceptions, scalar values, dictionaries, JSON values and
-- `sorted`. A row is a dictionary of scalars; nested values, and floats, are not cells of a row.
mod Exceptions
mod Scalars
mod Dicts
mod JsonValues
mod Sorting
mod Texts
pub mod Order
pub mod Clock
unfoldable pub use Exceptions.*
unfoldable pub use Scalars.*
unfoldable pub use Dicts.*
unfoldable pub use JsonValues.*
unfoldable pub use Sorting.*
unfoldable pub use Texts.*
