-- ===== src/Idempotency.antt =====
-- packages/idempotency: at-most-once execution of work under a client's key.
pub mod Key
pub mod Fingerprint
pub mod Client
pub mod Records
pub mod Services
pub mod WithLock
pub mod Manager
pub mod Interleaving
pub mod Memory
mod Tests
