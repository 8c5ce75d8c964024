-- ===== src/Sync/Proxmox/Guard.antt =====
-- What the Proxmox module asks for.
use netbox_monitor.Prelude.{ℕ, String, Bool, Option, List, Dict}
use netbox_monitor.Wire.Object.{Obj}
use netbox_monitor.Wire.Proxmox.{Node, Kind, qemu, lxc, Guest, GuestConfig}
use netbox_monitor.Wire.Request.{Request}
use netbox_monitor.Effects.Only.{Only, only_rules}
use netbox_monitor.Netbox.Guard.{Permitted, client_rules}
use netbox_monitor.State.{set_kv}
use netbox_monitor.Status.{record_status}
use netbox_monitor.Sync.Common.Guard.{common_rules}
use netbox_monitor.Sync.Proxmox.Guest.{
  Setup, Wanted, disk_unit_mb, create_vm, change_vm, update_vm, sync_interface, guest_ips, sync_ip,
  sync_network, read_config, attach_network, settle_guest, sync_guest,
}
use netbox_monitor.Sync.Proxmox.{
  Instance, PveSite, update_node, sync_node, mark_gone, mark_vanished, sync_guests,
  sync_node_guests, sync_details, sync_instance, try_instance, sync_pve_site, proxmox_run,
}

module _ (ctx : Setup) where
  abbrev P : Request → Type 0
  P = Permitted ctx.netbox

  disk_unit-Permitted : Only P disk_unit_mb
  unfolding disk_unit_mb
  disk_unit-Permitted = search (only_rules, tt) depth 8

  create_vm-Permitted :
      (o : Obj) (n : String) (k : Kind) (m : String) (g : Guest) (w : Wanted)
      → Only P (create_vm ctx o n k m g w)
  unfolding create_vm
  create_vm-Permitted o n k m g w = search client_rules depth 8

  change_vm-Permitted : (w : Wanted) (o : Obj) → Only P (change_vm ctx w o)
  unfolding change_vm
  change_vm-Permitted w o = search client_rules depth 8

  update_vm-Permitted : (w : Wanted) (o : Obj) → Only P (update_vm ctx w o)
  unfolding update_vm
  update_vm-Permitted w o = search (client_rules, change_vm-Permitted) depth 8

  sync_interface-Permitted :
      (o : Obj) (e : String × String) (os : List Obj) → Only P (sync_interface ctx o e os)
  unfolding sync_interface
  sync_interface-Permitted o e os = search common_rules depth 10

  guest_ips-Permitted :
      (h n : String) (k : Kind) (g : Guest) (c : GuestConfig) → Only P (guest_ips ctx h n k g c)
  unfolding guest_ips
  guest_ips-Permitted h n qemu g c = search (only_rules, tt) depth 8
  guest_ips-Permitted h n lxc g c = search only_rules

  sync_ip-Permitted :
      (n : String) (o : Obj) (i : Option Obj) (ip : String) (b : Bool)
      → Only P (sync_ip ctx n o i ip b)
  unfolding sync_ip
  sync_ip-Permitted n o i ip b = search common_rules depth 10

  sync_network-Permitted :
      (h n : String) (k : Kind) (g : Guest) (o : Obj) (c : GuestConfig)
      → Only P (sync_network ctx h n k g o c)
  unfolding sync_network
  sync_network-Permitted h n k g o c =
      search (only_rules, sync_interface-Permitted, guest_ips-Permitted, sync_ip-Permitted) depth 10

  attach_network-Permitted :
      (h n : String) (k : Kind) (g : Guest) (o : Obj) → Only P (attach_network ctx h n k g o)
  unfolding attach_network read_config
  attach_network-Permitted h n k g o = search (only_rules, tt, sync_network-Permitted) depth 10

  settle_guest-Permitted :
      (h : String) (o : Obj) (n : String) (k : Kind) (g : Guest) (w : Wanted) (found : Option Obj)
      → Only P (settle_guest ctx h o n k g w found)
  unfolding settle_guest
  settle_guest-Permitted h o n k g w found =
      search (only_rules, tt, create_vm-Permitted, update_vm-Permitted, attach_network-Permitted)
        depth 10

  sync_guest-Permitted :
      (h : String) (o : Obj) (d : Option Obj) (n : String) (k : Kind) (g : Guest)
      → Only P (sync_guest ctx h o d n k g)
  unfolding sync_guest
  sync_guest-Permitted h o d n k g =
      search (only_rules, tt, disk_unit-Permitted, settle_guest-Permitted) depth 10

  update_node-Permitted : (n : ℕ) (s : String) (o : Obj) → Only P (update_node ctx n s o)
  unfolding update_node
  update_node-Permitted n s o = search client_rules depth 8

  sync_node-Permitted :
      (n : Node) (o : Obj) (t : Option Obj) (s : Option ℕ) → Only P (sync_node ctx n o t s)
  unfolding sync_node
  sync_node-Permitted n o t s = search (client_rules, update_node-Permitted) depth 12

  mark_gone-Permitted : (seen : List String) (o : Obj) → Only P (mark_gone ctx seen o)
  unfolding mark_gone
  mark_gone-Permitted seen o = search client_rules depth 10

  mark_vanished-Permitted : (o : Obj) (seen : List String) → Only P (mark_vanished ctx o seen)
  unfolding mark_vanished
  mark_vanished-Permitted o seen = search (client_rules, mark_gone-Permitted) depth 8

  sync_guests-Permitted :
      (h : String) (o : Obj) (d : Option Obj) (n : String) (k : Kind) (seen : List String)
      → Only P (sync_guests ctx h o d n k seen)
  unfolding sync_guests
  sync_guests-Permitted h o d n k seen = search (only_rules, tt, sync_guest-Permitted) depth 10

  sync_node_guests-Permitted :
      (h : String) (o : Obj) (d : Dict Obj) (n : Node) (seen : List String)
      → Only P (sync_node_guests ctx h o d n seen)
  unfolding sync_node_guests
  sync_node_guests-Permitted h o d n seen = search (only_rules, sync_guests-Permitted) depth 8

  sync_details-Permitted : (i : Instance) (s : Option ℕ) (o : Obj) → Only P (sync_details ctx i s o)
  unfolding sync_details
  sync_details-Permitted i s o =
      search
        (client_rules, sync_node-Permitted, sync_node_guests-Permitted, mark_vanished-Permitted)
        depth 16

  sync_instance-Permitted : (s : Option ℕ) (i : Instance) → Only P (sync_instance ctx s i)
  unfolding sync_instance
  sync_instance-Permitted s i = search (client_rules, sync_details-Permitted) depth 12

  sync_pve_site-Permitted : (s : PveSite) → Only P (sync_pve_site ctx s)
  unfolding sync_pve_site try_instance record_status set_kv
  sync_pve_site-Permitted s = search (only_rules, tt, sync_instance-Permitted) depth 16

  pub proxmox_run-Permitted : (sites : List PveSite) → Only P (proxmox_run ctx sites)
  unfolding proxmox_run
  proxmox_run-Permitted sites = search (only_rules, sync_pve_site-Permitted) depth 8
