-- ===== src/Netbox.antt =====
-- clients/netbox.py: the NetBox client with its dry-run switch and its ownership guard.
-- A method that changes an object returns the local object as the client library leaves it.
-- `self.lock` only serialises the calls, and the log lines are not modelled.
pub mod Slug
pub mod Methods
pub mod Guard
pub mod Tags
use mathlib.Core.List.{foldl}
use netbox_monitor.Prelude.{
  ℕ, String, Bool, true, false, not, ◌&&◌, Option, none, some, List, [], ◌∷◌, ◌++◌, map, ◌==◌,
  if◌then◌else◌, maybe, is_nil, contains_text, keep, mem, Dict, lookup, insert,
}
use netbox_monitor.Wire.Object.{Endpoint, Obj, Payload, Value, text, num, nums, fields}
use netbox_monitor.Wire.Object
use netbox_monitor.Wire.Request.{Request, Exn, ExnClass, answered, failed}
use netbox_monitor.Effects.{Prog, pure, raise, try_catch, ask, ◌>>=◌, ◌>>◌}

abbrev pub managed_tag_slug : String
managed_tag_slug = "managed-netbox-monitor"

abbrev pub stale_tag_slug : String
stale_tag_slug = "stale"

abbrev pub cert_expiring_tag_slug : String
cert_expiring_tag_slug = "cert-expiring"

abbrev pub cert_expired_tag_slug : String
cert_expired_tag_slug = "cert-expired"

-- `NetBoxClient`: what `bootstrap` has registered, and the switch.
pub record Client : Type 0 where
  pub dry_run : Bool
  pub tag_table : Dict ℕ
  pub refs : Dict ℕ

abbrev pub key_error : String → Exn
key_error key = record { class = ExnClass.other; type_name = "KeyError"; text = key }

-- `[self._tag_ids[s] for s in slugs]`
unfoldable pub tag_ids : Client → List String → Prog (List ℕ)
tag_ids c [] = pure []
tag_ids c (s ∷ slugs) =
    let rest = tag_ids c slugs in
    maybe (lookup s c.tag_table) (raise (key_error s)) (λ i. rest >>= λ ids. pure (i ∷ ids))

unfoldable pub obj_tag_slugs : Obj → List String
obj_tag_slugs obj = map (λ t. t.slug) obj.tags

-- `is_managed(obj)` and `is_managed(obj, source)`
unfoldable pub is_managed : Obj → Option String → Bool
unfolding obj_tag_slugs
is_managed obj source =
    if mem managed_tag_slug (obj_tag_slugs obj)
    then maybe source true (λ s. mem s (obj_tag_slugs obj))
    else false

unfoldable pub create : Client → Endpoint → Payload → Prog (Option Obj)
create c endpoint payload =
    if c.dry_run then pure none else do obj ← ask (Request.create endpoint payload); pure (some obj)

unfoldable pub update : Client → Obj → Payload → Prog (Bool × Obj)
update c obj payload = if c.dry_run then pure (false, obj) else ask (Request.update obj payload)

unfoldable pub delete : Client → Obj → String → Prog Bool
delete c obj source =
    if not (is_managed obj (some source))
    then pure false
    else if c.dry_run
    then pure false
    else ask (Request.delete obj)

unfoldable pub delete_if_managed : Client → Obj → Prog Bool
delete_if_managed c obj =
    if not (mem managed_tag_slug (obj_tag_slugs obj))
    then pure false
    else if c.dry_run
    then pure false
    else ask (Request.delete obj)

unfoldable pub missing_tags : Obj → List String → List String
missing_tags obj = keep (λ s. not (mem s (obj_tag_slugs obj)))

unfoldable pub add_tags : Client → Obj → List String → Prog (Bool × Obj)
add_tags c obj slugs =
    let missing = missing_tags obj slugs in
    if is_nil missing then pure (false, obj) else do
      ids ← tag_ids c missing
      update c obj (("tags", nums (map (λ t. t.id) obj.tags ++ ids)) ∷ [])

unfoldable pub present_tags : Obj → List String → List String
present_tags obj = keep (λ s. mem s (obj_tag_slugs obj))

-- the ids of the tags that stay
unfoldable pub kept_tags : Obj → List String → List ℕ
kept_tags obj present = map (λ t. t.id) (keep (λ t. not (mem t.slug present)) obj.tags)

unfoldable pub remove_tags : Client → Obj → List String → Prog (Bool × Obj)
remove_tags c obj slugs =
    let present = present_tags obj slugs in
    if is_nil present
    then pure (false, obj)
    else update c obj (("tags", nums (kept_tags obj present)) ∷ [])

-- the entries that differ from the object's custom fields
unfoldable pub changed_fields : Dict String → Dict String → Dict String
changed_fields current = keep (λ (k, v). not (maybe (lookup k current) false (λ old. old == v)))

-- `{**current, **changed}`
unfoldable pub merge_fields : Dict String → Dict String → Dict String
merge_fields current changed = foldl (λ d (k, v). insert k v d) current changed

unfoldable pub set_custom_fields : Client → Obj → Dict String → Prog (Bool × Obj)
set_custom_fields c obj new =
    let changed = changed_fields obj.custom_fields new in
    if is_nil changed
    then pure (false, obj)
    else update c obj (("custom_fields", fields (merge_fields obj.custom_fields changed)) ∷ [])

-- an `except RequestError` clause that reads the message
abbrev tag_is_absent : Exn → Bool
tag_is_absent e = elim e.class [
  | ExnClass.request_error ↦ contains_text e.text "not one of the available choices"
  | _ ↦ false
]

unfoldable pub filter_tagged : Client → Endpoint → String → Payload → Prog (List Obj)
filter_tagged c endpoint tag_slug extra =
    try_catch (ask (Request.filter endpoint (("tag", Value.texts (tag_slug ∷ [])) ∷ extra)))
      (λ e. if tag_is_absent e then pure [] else raise e)

unfoldable pub ensure : Client → Endpoint → Payload → Payload → Prog (Option Obj)
ensure c endpoint criteria defaults = do
  found ← ask (Request.get endpoint criteria)
  maybe found (create c endpoint (criteria ++ defaults)) (λ obj. pure (some obj))

-- `endpoint.name`: the VM interfaces' endpoint has the same name as the device interfaces'.
unfoldable pub journal_type : Endpoint → Option String
journal_type Endpoint.ip_addresses = some "ipam.ipaddress"
journal_type Endpoint.prefixes = some "ipam.prefix"
journal_type Endpoint.devices = some "dcim.device"
journal_type Endpoint.interfaces = some "dcim.interface"
journal_type Endpoint.vm_interfaces = some "dcim.interface"
journal_type Endpoint.cables = some "dcim.cable"
journal_type Endpoint.virtual_machines = some "virtualization.virtualmachine"
journal_type _ = none

unfoldable pub journal : Client → Obj → String → String → Prog (Unit {0})
journal c obj comments kind =
    if c.dry_run
    then pure tt
    else maybe (journal_type obj.kind) (pure tt) (λ object_type.
      try_catch
        (do
          ask (
              Request.create Endpoint.journal_entries (
                ("assigned_object_type", text object_type)
                ∷ ("assigned_object_id", num obj.id)
                ∷ ("kind", text kind)
                ∷ ("comments", text comments)
                ∷ []))
          pure tt)
        (λ _. pure tt))
