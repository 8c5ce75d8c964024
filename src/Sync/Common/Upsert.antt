-- ===== src/Sync/Common/Upsert.antt =====
-- sync/common.py: `upsert_ip` and `link_primary_ip`.
use netbox_monitor.Prelude.{
  ℕ, String, Bool, false, not, ◌&&◌, Option, none, some, [], ◌∷◌, ◌++◌, Dict, ◌==◌, ◌=?◌,
  if◌then◌else◌, maybe, is_nil, is_some, non_empty, truthy, truthy_num,
}
use netbox_monitor.Wire.Object.{Endpoint, Obj, Payload, Value, text, num, nums, fields, null, cidr}
use netbox_monitor.Wire.Request.{Request, ExnClass}
use netbox_monitor.Effects.{Prog, pure, raise, try_catch, ask, ◌>>=◌, ◌>>◌}
use netbox_monitor.Netbox
use netbox_monitor.Netbox.{Client, managed_tag_slug, is_managed, tag_ids, set_custom_fields}
use netbox_monitor.Sync.Common.Lookup.{find_ip, prefix_len_for_ip, vm_interface_type}

-- The keyword arguments of `upsert_ip`.
pub record IpSpec : Type 0 where
  pub ip : String
  pub source_slug : String
  pub status : String
  pub dns_name : String
  pub description : String
  pub mac : Option String
  pub vendor : Option String
  pub assigned_object_type : Option String
  pub assigned_object_id : Option ℕ

-- a pair `(name, value)` for an optional text that is set
abbrev entry : String → Option String → Dict String
entry name value = maybe (truthy value) [] (λ v. (name, v) ∷ [])

unfoldable pub ip_custom_fields : IpSpec → String → Dict String
ip_custom_fields spec now =
    ("last_seen", now) ∷ entry "discovered_mac" spec.mac ++ entry "oui_vendor" spec.vendor

abbrev text_or_null : Option String → Value
text_or_null none = null
text_or_null (some s) = text s

abbrev assignment : Option String → Option ℕ → Payload
assignment type i =
    ("assigned_object_type", text_or_null type) ∷ ("assigned_object_id", maybe i null num) ∷ []

-- The `try` of the creation: a `RequestError` is logged, and the IP skipped.
unfoldable pub create_ip : Client → IpSpec → Dict String → Prog (Option Obj)
create_ip c spec custom_fields = do
  prefix_len ← prefix_len_for_ip spec.ip
  ids ← tag_ids c (managed_tag_slug ∷ spec.source_slug ∷ [])
  let data' =
      ("address", cidr spec.ip prefix_len)
      ∷ ("status", text spec.status)
      ∷ ("dns_name", text spec.dns_name)
      ∷ ("description", text spec.description)
      ∷ ("tags", nums ids)
      ∷ ("custom_fields", fields custom_fields)
      ∷ []
  let assigned =
      is_some (truthy spec.assigned_object_type) && is_some (truthy_num spec.assigned_object_id)
  try_catch
      (Netbox.create c Endpoint.ip_addresses (
        data'
        ++ (if assigned then assignment spec.assigned_object_type spec.assigned_object_id else [])))
      (λ e. elim e.class [ ExnClass.request_error ↦ pure none | _ ↦ raise e ])

-- What `upsert_ip` writes on an IP that is ours.
unfoldable pub ip_updates : IpSpec → Obj → Payload
ip_updates spec obj =
    (if not (obj.status_label == spec.status) && not (obj.status == spec.status)
      then ("status", text spec.status) ∷ []
      else [])
    ++ (if non_empty spec.dns_name && not (obj.dns_name == spec.dns_name)
        then ("dns_name", text spec.dns_name) ∷ []
        else [])
    ++ (if non_empty spec.description && not (obj.description == spec.description)
        then ("description", text spec.description) ∷ []
        else [])
    ++ (if is_some (truthy_num spec.assigned_object_id) && not (is_some obj.assigned_object_id)
        then assignment spec.assigned_object_type spec.assigned_object_id
        else [])

unfoldable pub update_ip : Client → IpSpec → Dict String → Obj → Prog (Option Obj)
update_ip c spec custom_fields obj = do
  let updates = if is_managed obj (some spec.source_slug) then ip_updates spec obj else []
  (_, obj') ← (if is_nil updates then pure (false, obj) else Netbox.update c obj updates)
  (_, obj'') ← set_custom_fields c obj' custom_fields
  pure (some obj'')

unfoldable pub upsert_ip : Client → IpSpec → Prog (Option Obj)
upsert_ip c spec = do
  now ← ask Request.now_iso
  let custom_fields = ip_custom_fields spec now
  found ← find_ip spec.ip
  maybe found (create_ip c spec custom_fields) (update_ip c spec custom_fields)

-- the id that an optional reference has
abbrev pub has_id : Option ℕ → ℕ → Bool
has_id none i = false
has_id (some j) i = j =? i

-- The part of `link_primary_ip` behind its first test: only an IP that is assigned to the
-- interface, and only a parent that is managed and has no primary IP yet.
unfoldable pub link_assigned : Client → String → ℕ → Obj → Obj → Prog (Unit {0})
link_assigned c object_type parent_id ip iface =
    if not (has_id ip.assigned_object_id iface.id) then pure tt else do
      let endpoint =
          if object_type == vm_interface_type then Endpoint.virtual_machines else Endpoint.devices
      found ← ask (Request.get endpoint (("id", num parent_id) ∷ []))
      maybe found (pure tt) (λ parent.
          if not (is_managed parent none)
          then pure tt
          else if is_some parent.primary_ip4
          then pure tt
          else do Netbox.update c parent (("primary_ip4", num ip.id) ∷ []); pure tt)

-- `object_type`, the parent's id, the IP and the interface.
unfoldable pub link_primary_ip :
    Client → String → Option ℕ → Option Obj → Option Obj → Prog (Unit {0})
link_primary_ip c object_type parent_ref ip_obj iface = maybe parent_ref (pure tt) (λ parent_id.
    maybe ip_obj (pure tt)
      (λ ip. maybe iface (pure tt) (λ i. link_assigned c object_type parent_id ip i)))
