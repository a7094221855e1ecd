-- ===== src/Client.antt =====
-- pkg/client: the parts of the client that keep state of their own.
pub mod Prober
