-- ===== src/Utf8.antt =====
-- Strings of src/utf8.c in Java's modified UTF-8: the decoder and what uses it, the encoder, and the
-- conversion of class names.
pub mod Chars
pub mod Encode
pub mod Names
pub mod NameLaws
pub mod Decode
pub mod RoundTrip
pub mod Overrun
mod Tests
