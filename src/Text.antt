-- ===== src/Text.antt =====
-- Go strings as lists of bytes, with what the program uses of Go's packages strings, strconv, sort
-- and time. White space and letters are the ASCII ones: all text that the kernel tools print is.
pub mod Ops
pub mod Split
pub mod Trim
pub mod Maps
pub mod Number
