-- ===== src/GoLib.antt =====
-- What the program uses of Go's standard library.
pub mod Strings
pub mod Url
pub mod Header
pub mod Hop
pub mod Base64
pub mod Query
pub mod Strconv
pub mod Ascii
