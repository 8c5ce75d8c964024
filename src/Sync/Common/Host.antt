-- ===== src/Sync/Common/Host.antt =====
-- sync/common.py: `ensure_discovered_device_type`, `set_interface_mac` and `ensure_host_device`.
use netbox_monitor.Prelude.{
  ℕ, String, Bool, true, false, not, ◌&&◌, Option, none, some, List, [], ◌∷◌, lookup, ◌==◌,
  if◌then◌else◌, maybe, find, is_some, truthy, take_text, ◌<>◌,
}
use netbox_monitor.Wire.Object.{Endpoint, Obj, Value, text, num, nums, fields, null}
use netbox_monitor.Wire.Request.{Request}
use netbox_monitor.Effects.{Prog, pure, try_catch, ask, ◌>>=◌, ◌>>◌}
use netbox_monitor.Netbox
use netbox_monitor.Netbox.{Client, managed_tag_slug, is_managed, tag_ids, set_custom_fields, ensure}
use netbox_monitor.Netbox.Slug.{slugify}
use netbox_monitor.Sync.Common.Lookup.{
  find_interface_by_mac, has_mac_objects, get_by_id, interface_type,
}
use netbox_monitor.Sync.Common.Upsert.{has_id, upsert_ip}

abbrev pub or_null : Option ℕ → Value
or_null none = null
or_null (some n) = num n

abbrev pub obj_id : Option Obj → Option ℕ
obj_id none = none
obj_id (some o) = some o.id

-- The device type; the manufacturer, which the source returns beside it, is used by no caller.
unfoldable pub ensure_discovered_device_type : Client → Option String → Prog (Option Obj)
ensure_discovered_device_type c vendor = do
  let name = take_text 100 (maybe (truthy vendor) "Unknown" (λ v. v))
  manufacturer ←
      ensure c Endpoint.manufacturers (("slug", text (slugify name)) ∷ [])
        (("name", text name) ∷ [])
  ensure c Endpoint.device_types (("slug", text (slugify (name <> "-discovered"))) ∷ []) (
      ("manufacturer", or_null (obj_id manufacturer))
      ∷ ("model", text (name <> " discovered device"))
      ∷ ("u_height", num 0)
      ∷ [])

-- the MAC object of this interface among those of the MAC
abbrev own_mac : String → ℕ → List Obj → Option Obj
own_mac object_type i =
    find (λ m.
      maybe m.assigned_object_type "" (λ t. t) == object_type && has_id m.assigned_object_id i)

unfoldable pub ensure_mac_object : Client → Obj → String → String → Prog (Option Obj)
ensure_mac_object c interface mac object_type = do
  candidates ← ask (Request.filter Endpoint.mac_addresses (("mac_address", text mac) ∷ []))
  maybe (own_mac object_type interface.id candidates)
      (Netbox.create c Endpoint.mac_addresses (
        ("mac_address", text mac)
        ∷ ("assigned_object_type", text object_type)
        ∷ ("assigned_object_id", num interface.id)
        ∷ []))
      (λ m. pure (some m))

-- Callers read of the interface only its id afterwards, which no update changes.
unfoldable pub set_interface_mac : Client → Obj → String → String → Prog (Unit {0})
set_interface_mac c interface mac object_type =
    try_catch
      (do
        mac_objects ← has_mac_objects
        if mac_objects
            then (do
              mac_obj ← ensure_mac_object c interface mac object_type
              maybe mac_obj (pure tt) (λ m.
                  if is_some interface.primary_mac_address then pure tt else do
                    Netbox.update c interface (("primary_mac_address", num m.id) ∷ [])
                    pure tt))
            else if maybe interface.mac_address false (λ old. old == mac)
            then pure tt
            else do Netbox.update c interface (("mac_address", text mac) ∷ []); pure tt)
      (λ _. pure tt)

-- The keyword arguments of `ensure_host_device`.
pub record HostSpec : Type 0 where
  pub name : String
  pub ip : String
  pub source_slug : String
  pub site_id : Option ℕ
  pub mac : Option String
  pub vendor : Option String
  pub dns_name : String
  pub description : String

-- The device whose interface carries the MAC.
unfoldable pub device_by_mac : String → Prog (Option Obj)
device_by_mac mac = do
  found ← find_interface_by_mac mac
  maybe found (pure none) (λ m.
      if m.type == interface_type
      then maybe m.parent (pure none) (λ i. get_by_id Endpoint.devices i)
      else pure none)

-- The device, and whether it was matched by its MAC.
unfoldable pub find_host_device : HostSpec → Prog (Option Obj × Bool)
find_host_device spec = do
  by_mac ← maybe (truthy spec.mac) (pure none) device_by_mac
  maybe by_mac
      (do
        by_name ← ask (Request.get Endpoint.devices (("name", text spec.name) ∷ []))
        pure (by_name, false))
      (λ d. pure (some d, true))

abbrev site_id_of : Obj → Option ℕ
site_id_of obj = maybe obj.site none (λ s. some s.id)

-- A managed device that was matched by its MAC moves to the current site.
unfoldable pub migrate_device : Client → HostSpec → Bool → Obj → Prog Obj
migrate_device c spec matched_by_mac device = maybe spec.site_id (pure device) (λ site.
    if matched_by_mac && is_managed device none && not (has_id (site_id_of device) site)
    then (do (_, moved) ← Netbox.update c device (("site", num site) ∷ []); pure moved)
    else pure device)

unfoldable pub create_host_device : Client → HostSpec → ℕ → Prog (Option Obj)
create_host_device c spec site = do
  device_type ← ensure_discovered_device_type c spec.vendor
  ids ← tag_ids c (managed_tag_slug ∷ spec.source_slug ∷ [])
  now ← ask Request.now_iso
  Netbox.create c Endpoint.devices (
      ("name", text spec.name)
      ∷ ("role", or_null (lookup "role_discovered" c.refs))
      ∷ ("device_type", or_null (obj_id device_type))
      ∷ ("site", num site)
      ∷ ("status", text "active")
      ∷ ("description", text spec.description)
      ∷ ("tags", nums ids)
      ∷ (
        "custom_fields",
        fields (("last_seen", now) ∷ ("oui_vendor", maybe (truthy spec.vendor) "" (λ v. v)) ∷ []),
      )
      ∷ [])

unfoldable pub host_interface : Client → HostSpec → Obj → Prog (Option Obj)
host_interface c spec device = do
  found ←
      ask (
        Request.get Endpoint.interfaces (("device_id", num device.id) ∷ ("name", text "eth0") ∷ []))
  maybe found
      (do
        ids ← tag_ids c (managed_tag_slug ∷ spec.source_slug ∷ [])
        Netbox.create c Endpoint.interfaces (
            ("device", num device.id)
            ∷ ("name", text "eth0")
            ∷ ("type", text "other")
            ∷ ("tags", nums ids)
            ∷ []))
      (λ iface. pure (some iface))

-- The primary IP is set only where it is missing and the IP hangs on our interface.
unfoldable pub set_host_primary : Client → Obj → Option Obj → Option Obj → Prog Obj
set_host_primary c device iface ip_obj = maybe ip_obj (pure device) (λ ip.
    maybe iface (pure device) (λ i.
      if is_some device.primary_ip4
      then pure device
      else if has_id ip.assigned_object_id i.id
      then (do (_, linked) ← Netbox.update c device (("primary_ip4", num ip.id) ∷ []); pure linked)
      else pure device))

-- The rest of `ensure_host_device` for a device that is ours: interface, MAC, IP, primary IP.
unfoldable pub document_host : Client → HostSpec → Obj → Prog (Option Obj)
document_host c spec device = do
  iface ← host_interface c spec device
  maybe iface (pure tt)
      (λ i. maybe (truthy spec.mac) (pure tt) (λ mac. set_interface_mac c i mac interface_type))
  ip_obj ← upsert_ip c (record {
    ip = spec.ip;
    source_slug = spec.source_slug;
    status = "active";
    dns_name = spec.dns_name;
    description = spec.description;
    mac = spec.mac;
    vendor = spec.vendor;
    assigned_object_type = maybe iface none (λ _. some interface_type);
    assigned_object_id = obj_id iface;
  })
  linked ← set_host_primary c device iface ip_obj
  pure (some linked)

-- A device that exists: one that a human documented gets its `last_seen`, and nothing else.
unfoldable pub refresh_host : Client → HostSpec → Obj → Prog (Option Obj)
refresh_host c spec device = do
  now ← ask Request.now_iso
  if not (is_managed device none)
      then (do (_, seen) ← set_custom_fields c device (("last_seen", now) ∷ []); pure (some seen))
      else do
        (_, seen) ←
            set_custom_fields c device
              (("last_seen", now) ∷ ("oui_vendor", maybe (truthy spec.vendor) "" (λ v. v)) ∷ [])
        document_host c spec seen

unfoldable pub ensure_host_device : Client → HostSpec → Prog (Option Obj)
ensure_host_device c spec = do
  (found, matched_by_mac) ← find_host_device spec
  maybe found
      (maybe spec.site_id (pure none) (λ site. do
        created ← create_host_device c spec site
        maybe created (pure none) (document_host c spec)))
      (λ device. do
        current ← migrate_device c spec matched_by_mac device
        refresh_host c spec current)
