-- ===== src/Wire.antt =====
-- What the program exchanges with the outside: NetBox objects, LLDP data, and the requests.
pub mod Object
pub mod Lldp
pub mod Dhcp
pub mod Dns
pub mod Certs
pub mod Proxmox
pub mod Request
