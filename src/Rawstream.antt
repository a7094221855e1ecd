-- ===== src/Rawstream.antt =====
-- internal/rawstream: the raw stream carrier, a handshake of two masked hellos and then AEAD chunks.
pub mod Hello
pub mod Matcher
pub mod ServerHello
pub mod Chunk
pub mod Open
pub mod Writer
pub mod Reader
mod Tests
mod StreamTests
