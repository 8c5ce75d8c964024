-- ===== src/Sync/Lldp.antt =====
-- sync/lldp.py: the topology crawl. The children follow the class `LldpSync`: which credentials a
-- host is tried with, the polling of a host, the devices, the merging of duplicates, the cables,
-- and the crawl over the fabric.
pub mod Types
pub mod Attempts
pub mod Poll
pub mod Switch
pub mod Merge
pub mod Cable
pub mod Guard
pub mod Crawl
pub mod Run
