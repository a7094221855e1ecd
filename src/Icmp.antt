-- ===== src/Icmp.antt =====
-- internal/icmpmsg/icmp.go: echo messages, their checksum, and the tracker that gives each
-- outstanding request an identifier of its own.
pub mod Checksum
pub mod Message
pub mod Tracker
mod Tests
