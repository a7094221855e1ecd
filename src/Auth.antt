-- ===== src/Auth.antt =====
-- pkg/auth: request signatures and the cache of used nonces.
pub mod Signature
pub mod ReplayCache
mod Tests
