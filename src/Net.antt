-- ===== src/Net.antt =====
-- What the program uses of the library's IPv4 addresses and networks.
pub mod Ipv4
pub mod Names
pub mod Oui
