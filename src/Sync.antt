-- ===== src/Sync.antt =====
-- sync/: the modules that reconcile NetBox with the network.
pub mod Common
pub mod Certs
pub mod Cleanup
pub mod Availability
pub mod Dhcp
pub mod Dns
pub mod Discovery
pub mod Lldp
pub mod Proxmox
pub mod Modules
