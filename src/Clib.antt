-- ===== src/Clib.antt =====
-- What the code uses of the C library's text functions, over lists of bytes. A C string is the
-- list of its bytes without the NUL at its end.
pub mod Atoi
pub mod Text
pub mod Decimal
pub mod Tokens
pub mod Scan
