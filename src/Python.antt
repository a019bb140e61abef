-- ===== src/Python.antt =====
-- What the modules take from Python itself: exceptions, JSON values, texts, and the standard
-- library's functions that the code calls, which are fields of the parameter `Python`.
mod Errors
mod Text
mod Values
mod Reading
mod Stdlib
unfoldable pub use Errors.*
unfoldable pub use Text.*
unfoldable pub use Values.*
unfoldable pub use Reading.*
unfoldable pub use Stdlib.*
