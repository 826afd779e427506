-- ===== src/IcqLegacy.antt =====
-- server/icq_legacy: the servers of the old ICQ protocols.
pub mod Crypt
pub mod Status
pub mod Sessions
mod Tests
