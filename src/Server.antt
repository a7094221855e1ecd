-- ===== src/Server.antt =====
-- pkg/server: the parts of the server that keep state of their own.
pub mod UdpBudget
