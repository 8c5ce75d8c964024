-- ===== src/Sync/Lldp/Switch.antt =====
-- sync/lldp.py: finding and creating the device of a switch, and the interfaces on it.
use netbox_monitor.Prelude.{
  ℕ, String, true, not, Option, none, some, [], ◌∷◌, Dict, lookup, if◌then◌else◌, maybe, head?,
  is_some, is_empty, truthy, truthy_num, before, replace, ◌==◌, ◌<>◌,
}
use netbox_monitor.Wire.Object.{Endpoint, Obj, Payload, text, num, nums, fields}
use netbox_monitor.Wire.Request.{Request}
use netbox_monitor.Effects.{Prog, pure, ask, ◌>>=◌, ◌>>◌}
use netbox_monitor.Netbox
use netbox_monitor.Netbox.{Client, managed_tag_slug, tag_ids}
use netbox_monitor.Net.Oui.{oui_lookup}
use netbox_monitor.Lldp.Registry.{select_driver}
use netbox_monitor.Sync.Common.Lookup.{find_ip, get_by_id, interface_type}
use netbox_monitor.Sync.Common.Upsert.{upsert_ip}
use netbox_monitor.Sync.Common.Host.{
  device_by_mac, ensure_discovered_device_type, set_interface_mac, or_null, obj_id,
}
use netbox_monitor.Sync.Lldp.Types.{Context, Site}

abbrev pub src : String
src = "src-lldp"

abbrev vendor_names : Dict String
vendor_names =
    ("cisco", "Cisco")
    ∷ ("arista", "Arista")
    ∷ ("aruba", "Aruba")
    ∷ ("mikrotik", "MikroTik")
    ∷ ("unifi", "Ubiquiti")
    ∷ []

unfoldable pub vendor_name : Context → Option String → Option String → String
unfolding lookup
vendor_name ctx sys_descr chassis_mac =
    maybe (maybe (select_driver none sys_descr) none (λ d. lookup d vendor_names))
      (maybe (truthy (maybe (truthy chassis_mac) none (oui_lookup ctx.vendors))) "Unknown" (λ v. v))
      (λ name. name)

-- The device that owns the IP by its assigned interface.
unfoldable pub device_by_ip : String → Prog (Option Obj)
device_by_ip ip = do
  found ← find_ip ip
  maybe found (pure none) (λ obj.
      if not (maybe obj.assigned_object_type "" (λ t. t) == interface_type)
      then pure none
      else maybe (truthy_num obj.assigned_object_id) (pure none) (λ i. do
        iface ← get_by_id Endpoint.interfaces i
        maybe (maybe iface none (λ f. f.device)) (pure none) (get_by_id Endpoint.devices)))

abbrev short_name : String → String
short_name = before b'.'

-- By chassis MAC, then by system name, then by management IP.
unfoldable pub find_switch_device :
    Option String → Option String → Option String → Prog (Option Obj)
find_switch_device mgmt_ip chassis_mac sysname = do
  by_mac ← maybe (truthy chassis_mac) (pure none) device_by_mac
  by_name ←
      maybe by_mac
        (maybe (truthy sysname) (pure none) (λ s. do
          found ← ask (Request.filter Endpoint.devices (("name__ie", text (short_name s)) ∷ []))
          pure (head? found)))
        (λ d. pure (some d))
  maybe by_name (maybe (truthy mgmt_ip) (pure none) device_by_ip) (λ d. pure (some d))

abbrev switch_name : Option String → Option String → Option String → String
switch_name mgmt_ip chassis_mac sysname =
    maybe (truthy (maybe (truthy sysname) none (λ s. some (short_name s))))
      (maybe (truthy mgmt_ip) ("switch-" <> maybe chassis_mac "None" (λ m. m))
        (λ ip. "switch-" <> replace b'.' "-" ip))
      (λ s. s)

-- `nb.refs.get("role_switch") or nb.refs.get("role_discovered")`
abbrev switch_role : Client → Option ℕ
switch_role c =
    maybe (truthy_num (lookup "role_switch" c.refs)) (lookup "role_discovered" c.refs) some

abbrev pub new_interface : Client → ℕ → String → Payload → Prog (Option Obj)
new_interface c device name extra = do
  ids ← tag_ids c (managed_tag_slug ∷ src ∷ [])
  Netbox.create c Endpoint.interfaces (
      ("device", num device)
      ∷ ("name", text name)
      ∷ ("type", text "other")
      ∷ ("tags", nums ids)
      ∷ extra)

unfoldable pub mgmt_interface : Client → Obj → Prog (Option Obj)
mgmt_interface c device = do
  found ←
      ask (
        Request.get Endpoint.interfaces (("device_id", num device.id) ∷ ("name", text "mgmt") ∷ []))
  maybe found (new_interface c device.id "mgmt" []) (λ iface. pure (some iface))

-- The management IP on the management interface, and the primary IP of the new device.
unfoldable pub assign_mgmt_ip : Client → String → Obj → Obj → String → Prog Obj
assign_mgmt_ip c name device iface ip = do
  ip_obj ← upsert_ip c (record {
    ip = ip;
    source_slug = src;
    status = "active";
    dns_name = "";
    description = "LLDP mgmt IP for " <> name;
    mac = none;
    vendor = none;
    assigned_object_type = some interface_type;
    assigned_object_id = some iface.id;
  })
  maybe ip_obj (pure device) (λ o. if is_some device.primary_ip4 then pure device else do
    (_, linked) ← Netbox.update c device (("primary_ip4", num o.id) ∷ [])
    pure (record linked { created = device.created }))

unfoldable pub create_switch :
    Context → ℕ → Option String → Option String → Option String → Option String → Prog (Option Obj)
create_switch ctx site_id mgmt_ip sys_descr chassis_mac sysname = do
  let c = ctx.netbox
  let vendor = vendor_name ctx sys_descr chassis_mac
  let name = switch_name mgmt_ip chassis_mac sysname
  device_type ← ensure_discovered_device_type c (some (vendor <> " Switch"))
  ids ← tag_ids c (managed_tag_slug ∷ src ∷ [])
  now ← ask Request.now_iso
  created ← Netbox.create c Endpoint.devices (
      ("name", text name)
      ∷ ("role", or_null (switch_role c))
      ∷ ("device_type", or_null (obj_id device_type))
      ∷ ("site", num site_id)
      ∷ ("status", text "active")
      ∷ ("description", text "Auto-created from LLDP crawl")
      ∷ ("tags", nums ids)
      ∷ ("custom_fields", fields (("last_seen", now) ∷ ("oui_vendor", vendor) ∷ []))
      ∷ [])
  maybe created (pure none) (λ bare. do
    let device : Obj = record bare { created = true }
    mgmt_if ← mgmt_interface c device
    maybe mgmt_if (pure (some device)) (λ iface. do
      maybe (truthy chassis_mac) (pure tt) (λ mac. set_interface_mac c iface mac interface_type)
      linked ← maybe (truthy mgmt_ip) (pure device) (assign_mgmt_ip c name device iface)
      pure (some linked)))

unfoldable pub ensure_switch_device :
    Context
    → Site
    → Option String
    → Option String
    → Option String
    → Option String
    → Prog (Option Obj)
ensure_switch_device ctx site mgmt_ip sys_descr chassis_mac sysname = do
  found ← find_switch_device mgmt_ip chassis_mac sysname
  maybe found
      (maybe site.netbox_site_id (pure none)
        (λ site_id. create_switch ctx site_id mgmt_ip sys_descr chassis_mac sysname))
      (λ d. pure (some d))

-- `_local_interface`
unfoldable pub local_interface : Client → Obj → String → Prog (Option Obj)
local_interface c switch name = if is_empty name then pure none else do
  found ←
      ask
        (Request.get Endpoint.interfaces (("device_id", num switch.id) ∷ ("name", text name) ∷ []))
  maybe found
      (new_interface c switch.id name (("description", text "Created from LLDP local port") ∷ []))
      (λ iface. pure (some iface))
