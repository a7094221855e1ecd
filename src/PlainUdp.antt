-- ===== src/PlainUdp.antt =====
-- internal/plainudp: the plain UDP carrier.
pub mod Packet
pub mod Decode
pub mod ResponseReplay
mod PacketTests
