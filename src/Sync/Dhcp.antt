-- ===== src/Sync/Dhcp.antt =====
-- sync/dhcp.py: the leases and the scopes of Technitium, mirrored into NetBox.
pub mod Lease
pub mod Run
pub mod Guard
pub mod Kept
