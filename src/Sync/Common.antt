-- ===== src/Sync/Common.antt =====
-- sync/common.py: the reconciliation helpers that the sync modules share.
pub mod Lookup
pub mod Upsert
pub mod Host
pub mod Guard
pub mod Respect
