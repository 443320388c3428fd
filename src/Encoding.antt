-- ===== src/Encoding.antt =====
-- How bytes and values are laid out: frames on a stream, and the encodings of number and key
-- sequences.
pub mod Framing
pub mod RunLength
pub mod Delta
pub mod Prefix
pub mod Varint
mod Tests
