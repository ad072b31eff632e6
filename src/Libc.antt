-- ===== src/Libc.antt =====
-- The functions of the C library that iw calls on text, on byte lists, in the C locale and with
-- 64-bit `unsigned long`. A C string is the list of its bytes before the NUL.
mod Ctype
mod Text
mod Number
mod Print
mod Lines
pub mod Laws
unfoldable pub use Ctype.*
unfoldable pub use Text.*
unfoldable pub use Print.*
unfoldable pub use Number.*
unfoldable pub use Lines.*
