-- ===== src/Sync/Dns.antt =====
-- sync/dns.py: the names of records (Names), their collection and the run (Collect), the
-- reconciliation (Reconcile), and what they ask for (Guard, Filled).
pub mod Names
pub mod Reconcile
pub mod Collect
pub mod Filled
pub mod Guard
pub mod RunGuard
