-- ===== src/Sync/Lldp/Guard.antt =====
-- What sync/lldp.py asks of NetBox is what the client permits, and a host is contacted only while
-- it is polled or visited.
use netbox_monitor.Prelude.{ℕ, String, Option, none, List, [], ◌∷◌, Dict}
use netbox_monitor.Wire.Object.{Obj}
use netbox_monitor.Wire.Lldp.{Neighbor}
use netbox_monitor.Effects.Only.{Only, only_pure}
use netbox_monitor.Netbox.{Client}
use netbox_monitor.Netbox.Guard.{Permitted}
use netbox_monitor.Sync.Common.Guard.{common_rules, device_by_mac-Permitted}
use netbox_monitor.Sync.Lldp.Types.{Context, Site}
use netbox_monitor.Sync.Lldp.Switch.{
  device_by_ip, find_switch_device, mgmt_interface, assign_mgmt_ip, create_switch,
  ensure_switch_device, local_interface,
}
use netbox_monitor.Sync.Lldp.Merge.{
  Direction, interface_name, move_ip, absorb, merge_duplicate, other_carrier, dedup, record_mac,
  record_local_macs, dedup_and_record_macs,
}
use netbox_monitor.Sync.Lldp.Cable.{
  device_of_ips, remote_by_ip, remote_by_mac, find_remote_device, only_interface, interface_by_name,
  interface_by_mac, find_remote_interface, ensure_cable, reconcile_neighbor, reconcile,
}

module _ (c : Client) where
  device_by_ip-Permitted : (ip : String) → Only (Permitted c) (device_by_ip ip)
  unfolding device_by_ip
  device_by_ip-Permitted ip = search common_rules depth 8

  find_switch_device-Permitted :
      (ip mac name : Option String) → Only (Permitted c) (find_switch_device ip mac name)
  unfolding find_switch_device
  find_switch_device-Permitted ip mac name =
      search (common_rules, device_by_ip-Permitted, device_by_mac-Permitted) depth 8

  mgmt_interface-Permitted : (o : Obj) → Only (Permitted c) (mgmt_interface c o)
  unfolding mgmt_interface
  mgmt_interface-Permitted o = search common_rules

  assign_mgmt_ip-Permitted :
      (n : String) (d i : Obj) (ip : String) → Only (Permitted c) (assign_mgmt_ip c n d i ip)
  unfolding assign_mgmt_ip
  assign_mgmt_ip-Permitted n d i ip = search common_rules depth 8

  pub local_interface-Permitted :
      (o : Obj) (n : String) → Only (Permitted c) (local_interface c o n)
  unfolding local_interface
  local_interface-Permitted o n = search common_rules depth 8

  interface_name-Permitted : (o : Obj) → Only (Permitted c) (interface_name o)
  unfolding interface_name
  interface_name-Permitted o = search common_rules

  move_ip-Permitted : (l : Option ℕ) (ip k : Obj) → Only (Permitted c) (move_ip c l ip k)
  unfolding move_ip
  move_ip-Permitted l ip k =
      search (common_rules, interface_name-Permitted, local_interface-Permitted) depth 8

  absorb-Permitted :
      (d : Direction) (ips : List Obj) (mac : String) → Only (Permitted c) (absorb c d ips mac)
  unfolding absorb
  absorb-Permitted d ips mac = search (common_rules, move_ip-Permitted) depth 10

  merge_duplicate-Permitted :
      (a b : Obj) (mac : String) → Only (Permitted c) (merge_duplicate c a b mac)
  unfolding merge_duplicate
  merge_duplicate-Permitted a b mac = search (common_rules, absorb-Permitted) depth 8

  other_carrier-Permitted : (o : Obj) (mac : String) → Only (Permitted c) (other_carrier o mac)
  unfolding other_carrier
  other_carrier-Permitted o mac = search common_rules depth 10

  dedup-Permitted : (o : Obj) (macs : List String) → Only (Permitted c) (dedup c o macs)
  unfolding dedup
  dedup-Permitted o [] = only_pure o
  dedup-Permitted o (mac ∷ macs) =
      let rest = dedup-Permitted o macs in
      search (common_rules, other_carrier-Permitted, merge_duplicate-Permitted)

  record_mac-Permitted :
      (o : Obj) (m : String × Option String) (g : Option Obj)
      → Only (Permitted c) (record_mac c o m g)
  unfolding record_mac
  record_mac-Permitted o (mac, ifname) g = search (common_rules, local_interface-Permitted) depth 8

  record_local_macs-Permitted :
      (o : Obj) (d : Dict (Option String)) → Only (Permitted c) (record_local_macs c o d)
  unfolding record_local_macs
  record_local_macs-Permitted o d = search (common_rules, record_mac-Permitted)

  pub dedup_and_record_macs-Permitted :
      (o : Obj) (mac : Option String) (d : Dict (Option String))
      → Only (Permitted c) (dedup_and_record_macs c o mac d)
  unfolding dedup_and_record_macs
  dedup_and_record_macs-Permitted o mac d =
      search (common_rules, dedup-Permitted, record_local_macs-Permitted)

  device_of_ips-Permitted : (ips : List Obj) → Only (Permitted c) (device_of_ips ips)
  unfolding device_of_ips
  device_of_ips-Permitted [] = only_pure none
  device_of_ips-Permitted (ip ∷ ips) = let rest = device_of_ips-Permitted ips in search common_rules

  remote_by_ip-Permitted : (n : Neighbor) → Only (Permitted c) (remote_by_ip n)
  unfolding remote_by_ip
  remote_by_ip-Permitted n = search (common_rules, device_of_ips-Permitted)

  remote_by_mac-Permitted : (n : Neighbor) → Only (Permitted c) (remote_by_mac n)
  unfolding remote_by_mac
  remote_by_mac-Permitted n = search (common_rules, remote_by_ip-Permitted) depth 8

  find_remote_device-Permitted : (n : Neighbor) → Only (Permitted c) (find_remote_device n)
  unfolding find_remote_device
  find_remote_device-Permitted n = search (common_rules, remote_by_mac-Permitted) depth 10

  only_interface-Permitted : (o : Obj) → Only (Permitted c) (only_interface o)
  unfolding only_interface
  only_interface-Permitted o = search common_rules

  interface_by_name-Permitted :
      (o : Obj) (p : String) → Only (Permitted c) (interface_by_name c o p)
  unfolding interface_by_name
  interface_by_name-Permitted o p = search (common_rules, only_interface-Permitted) depth 8

  ensure_cable-Permitted : (a b : Obj) → Only (Permitted c) (ensure_cable c a b)
  unfolding ensure_cable
  ensure_cable-Permitted a b = search common_rules depth 8

module _ (ctx : Context) where
  create_switch-Permitted :
      (i : ℕ) (ip d mac name : Option String)
      → Only (Permitted ctx.netbox) (create_switch ctx i ip d mac name)
  unfolding create_switch
  create_switch-Permitted i ip d mac name =
      search (common_rules, mgmt_interface-Permitted, assign_mgmt_ip-Permitted) depth 12

  pub ensure_switch_device-Permitted :
      (site : Site) (ip d mac name : Option String)
      → Only (Permitted ctx.netbox) (ensure_switch_device ctx site ip d mac name)
  unfolding ensure_switch_device
  ensure_switch_device-Permitted site ip d mac name =
      search (common_rules, find_switch_device-Permitted, create_switch-Permitted) depth 8

  interface_by_mac-Permitted :
      (o : Obj) (p : String) → Only (Permitted ctx.netbox) (interface_by_mac ctx o p)
  unfolding interface_by_mac
  interface_by_mac-Permitted o p = search (common_rules, only_interface-Permitted) depth 8

  find_remote_interface-Permitted :
      (o : Obj) (n : Neighbor) → Only (Permitted ctx.netbox) (find_remote_interface ctx o n)
  unfolding find_remote_interface
  find_remote_interface-Permitted o n = search (
    common_rules, only_interface-Permitted, interface_by_mac-Permitted, interface_by_name-Permitted,
  )

  reconcile_neighbor-Permitted :
      (site : Site) (o : Obj) (n : Neighbor)
      → Only (Permitted ctx.netbox) (reconcile_neighbor ctx site o n)
  unfolding reconcile_neighbor
  reconcile_neighbor-Permitted site o n =
      search
        (
          common_rules, local_interface-Permitted, find_remote_device-Permitted,
          ensure_switch_device-Permitted, find_remote_interface-Permitted, ensure_cable-Permitted,
        )
        depth 12

  pub reconcile-Permitted :
      (site : Site) (o : Obj) (ns : List Neighbor)
      → Only (Permitted ctx.netbox) (reconcile ctx site o ns)
  unfolding reconcile
  reconcile-Permitted site o ns = search (common_rules, reconcile_neighbor-Permitted)
