-- ===== src/Wire/Proxmox.antt =====
-- What clients/proxmox.py hands over of a Proxmox VE cluster, with the keys that sync/proxmox.py reads.
use netbox_monitor.Prelude.{ℕ, String, Option, List, Dict}

pub record Node : Type 0 where
  pub node : String
  pub status : Option String

-- The two kinds of guests.
pub data Kind : Type 0 where
  qemu : Kind
  lxc : Kind

-- A size that is missing is 0.
pub record Guest : Type 0 where
  pub vmid : ℕ
  pub name : Option String
  pub status : Option String
  pub maxmem : ℕ
  pub maxcpu : Option ℕ
  pub cpus : Option ℕ
  pub maxdisk : ℕ

-- The configuration of a guest, with what `parse_net_devices` and `parse_lxc_ips` make of it.
pub record GuestConfig : Type 0 where
  pub macs : Dict String
  pub lxc_ips : List String
