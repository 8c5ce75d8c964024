-- ===== src/Sync/Lldp/Cable.antt =====
-- sync/lldp.py: `_reconcile`, which documents the links of a switch as cables.
use netbox_monitor.Prelude.{
  String, ◌||◌, Option, none, some, List, [], ◌∷◌, if◌then◌else◌, maybe, head?, is_some, truthy,
  before, ◌==◌,
}
use netbox_monitor.Wire.Object.{Endpoint, Obj, text, num, nums, termination}
use netbox_monitor.Wire.Lldp.{Neighbor}
use netbox_monitor.Wire.Request.{Request}
use netbox_monitor.Effects.{Prog, pure, ask, ◌>>=◌, ◌>>◌, for_each}
use netbox_monitor.Net.Oui.{normalize_mac}
use netbox_monitor.Netbox
use netbox_monitor.Netbox.{Client, managed_tag_slug, is_managed, tag_ids}
use netbox_monitor.Lldp.{is_crawlable_switch}
use netbox_monitor.Sync.Common.Lookup.{find_interface_by_mac, get_by_id, interface_type}
use netbox_monitor.Sync.Lldp.Types.{Context, Site}
use netbox_monitor.Sync.Lldp.Switch.{src, local_interface, ensure_switch_device, new_interface}

abbrev by_name : String → Prog (Option Obj) → Prog (Option Obj)
by_name candidate next = do
  matches ← ask (Request.filter Endpoint.devices (("name__ie", text candidate) ∷ []))
  maybe (head? matches) next (λ d. pure (some d))

-- The first of the IPs that hangs on a device's interface leads to that device.
unfoldable pub device_of_ips : List Obj → Prog (Option Obj)
device_of_ips [] = pure none
device_of_ips (ip ∷ ips) =
    let rest = device_of_ips ips in maybe ip.assigned_device rest (get_by_id Endpoint.devices)

unfoldable pub remote_by_ip : Neighbor → Prog (Option Obj)
remote_by_ip n = maybe (truthy n.mgmt_ip) (pure none) (λ ip. do
  ips ← ask (Request.filter Endpoint.ip_addresses (("address", text ip) ∷ []))
  device_of_ips ips)

-- A match by MAC on a device's interface is final, even where the device is gone.
unfoldable pub remote_by_mac : Neighbor → Prog (Option Obj)
remote_by_mac n = maybe (truthy n.chassis_mac) (remote_by_ip n) (λ mac. do
  found ← find_interface_by_mac mac
  maybe (maybe found none (λ m. if m.type == interface_type then m.parent else none))
      (remote_by_ip n) (get_by_id Endpoint.devices))

-- `_find_remote_device`
unfoldable pub find_remote_device : Neighbor → Prog (Option Obj)
find_remote_device n =
    maybe (truthy n.sysname) (remote_by_mac n)
      (λ sysname. by_name sysname (by_name (before b'.' sysname) (remote_by_mac n)))

abbrev single : List Obj → Option Obj
single (i ∷ []) = some i
single _ = none

-- The last resort of `_find_remote_interface`: the only interface.
unfoldable pub only_interface : Obj → Prog (Option Obj)
only_interface device = do
  ifaces ← ask (Request.filter Endpoint.interfaces (("device_id", num device.id) ∷ []))
  pure (single ifaces)

unfoldable pub interface_by_name : Client → Obj → String → Prog (Option Obj)
interface_by_name c device port = do
  iface ←
      ask
        (Request.get Endpoint.interfaces (("device_id", num device.id) ∷ ("name", text port) ∷ []))
  maybe iface
      (if is_managed device (some src)
        then new_interface c device.id port
            (("description", text "Created from LLDP remote port") ∷ [])
        else only_interface device)
      (λ i. pure (some i))

unfoldable pub interface_by_mac : Context → Obj → String → Prog (Option Obj)
interface_by_mac ctx device port =
    maybe (truthy (normalize_mac port)) (only_interface device) (λ mac. do
      matches ← ask (
          Request.filter Endpoint.interfaces
            (("device_id", num device.id) ∷ ("mac_address", text mac) ∷ []))
      maybe (head? matches) (only_interface device) (λ i. pure (some i)))

unfoldable pub find_remote_interface : Context → Obj → Neighbor → Prog (Option Obj)
find_remote_interface ctx device n = maybe (truthy n.remote_port) (only_interface device) (λ port.
    if n.remote_port_is_mac
    then interface_by_mac ctx device port
    else interface_by_name ctx.netbox device port)

-- A cable is made only between two interfaces that have none.
unfoldable pub ensure_cable : Client → Obj → Obj → Prog (Unit {0})
ensure_cable c local_iface remote_iface =
    if is_some local_iface.cable || is_some remote_iface.cable then pure tt else do
      ids ← tag_ids c (managed_tag_slug ∷ src ∷ [])
      Netbox.create c Endpoint.cables (
          ("a_terminations", termination local_iface.id)
          ∷ ("b_terminations", termination remote_iface.id)
          ∷ ("status", text "connected")
          ∷ ("description", text "Documented from LLDP")
          ∷ ("tags", nums ids)
          ∷ [])
      pure tt

-- One round of `_reconcile`.
unfoldable pub reconcile_neighbor : Context → Site → Obj → Neighbor → Prog (Unit {0})
reconcile_neighbor ctx site switch n = do
  found_local ← local_interface ctx.netbox switch n.local_port
  maybe found_local (pure tt) (λ local. do
    known ← find_remote_device n
    remote ←
        maybe known
          (if is_crawlable_switch n
            then ensure_switch_device ctx site n.mgmt_ip n.sys_descr n.chassis_mac n.sysname
            else pure none)
          (λ d. pure (some d))
    maybe remote (pure tt) (λ device. do
      found_remote ← find_remote_interface ctx device n
      maybe found_remote (pure tt) (ensure_cable ctx.netbox local)))

unfoldable pub reconcile : Context → Site → Obj → List Neighbor → Prog (Unit {0})
reconcile ctx site switch neighbors =
    for_each neighbors tt (λ n _. reconcile_neighbor ctx site switch n)
