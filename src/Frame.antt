-- ===== src/Frame.antt =====
-- internal/frame: the private framing of the HTTP carriers. Header, frames, the stream writer and
-- reader on top, datagrams, and the replay window.
pub mod Header
pub mod Transfer
pub mod Wire
pub mod StreamWriter
pub mod StreamReader
pub mod Datagram
pub mod Replay
mod Tests
