-- ===== src/Bootstrap.antt =====
-- bootstrap.py: the tags, custom fields and roles that the service needs. The client is returned with
-- what was registered in it.
pub mod Registered
use netbox_monitor.Prelude.{
  ℕ, String, Bool, false, Option, none, some, List, [], ◌∷◌, ◌++◌, insert, erase, maybe, ◌<>◌,
}
use netbox_monitor.Wire.Object.{Endpoint, Obj, Payload, Value, text, texts, flag}
use netbox_monitor.Wire.Request.{Request}
use netbox_monitor.Effects.{Prog, pure, try_catch, ask, ◌>>=◌, ◌>>◌, for_each}
use netbox_monitor.Netbox
use netbox_monitor.Netbox.{
  Client, managed_tag_slug, stale_tag_slug, cert_expiring_tag_slug, cert_expired_tag_slug, ensure,
}
use netbox_monitor.Netbox.Slug.{slugify}

-- `ALL_TAGS`: the slug, and the name, the colour and the description.
pub record TagSpec : Type 0 where
  pub slug : String
  pub name : String
  pub color : String
  pub description : String

abbrev pub all_tags : List TagSpec
all_tags =
    (record {
      slug = managed_tag_slug;
      name = "managed:netbox-monitor";
      color = "2196f3";
      description = "Created and managed by the netbox-monitor service";
    })
    ∷ (record {
      slug = "src-dhcp";
      name = "src:dhcp";
      color = "00bcd4";
      description = "Sourced from a Technitium DHCP lease";
    })
    ∷ (record {
      slug = "src-scan";
      name = "src:scan";
      color = "009688";
      description = "Discovered by netbox-monitor ping scanning";
    })
    ∷ (record {
      slug = "src-proxmox";
      name = "src:proxmox";
      color = "ff9800";
      description = "Synced from Proxmox VE";
    })
    ∷ (record {
      slug = "src-lldp";
      name = "src:lldp";
      color = "9c27b0";
      description = "Topology learned via LLDP";
    })
    ∷ (record {
      slug = stale_tag_slug;
      name = "stale";
      color = "f44336";
      description = "Host has been unreachable beyond the stale threshold";
    })
    ∷ (record {
      slug = cert_expiring_tag_slug;
      name = "cert-expiring";
      color = "ffc107";
      description = "TLS certificate expires soon";
    })
    ∷ (record {
      slug = cert_expired_tag_slug;
      name = "cert-expired";
      color = "d32f2f";
      description = "TLS certificate has expired";
    })
    ∷ []

-- `register_tag` of clients/netbox.py
abbrev pub register_tag : String → ℕ → Client → Client
register_tag slug id c = record c { tag_table = insert slug id c.tag_table }

-- In a dry run a missing tag gets the id 0.
unfoldable pub ensure_tag : TagSpec → Client → Prog Client
ensure_tag t c = do
  obj ←
      ensure c Endpoint.tags (("slug", text t.slug) ∷ [])
        (("name", text t.name) ∷ ("color", text t.color) ∷ ("description", text t.description) ∷ [])
  pure (register_tag t.slug (maybe obj 0 (λ o. o.id)) c)

pub record FieldSpec : Type 0 where
  pub name : String
  pub type : String
  pub object_types : List String
  pub label : String

abbrev ip_type : String
ip_type = "ipam.ipaddress"

abbrev device_type : String
device_type = "dcim.device"

abbrev vm_type : String
vm_type = "virtualization.virtualmachine"

abbrev pub custom_fields : List FieldSpec
custom_fields =
    (record {
      name = "last_seen";
      type = "datetime";
      object_types = ip_type ∷ device_type ∷ vm_type ∷ [];
      label = "Last seen";
    })
    ∷ (record {
      name = "discovered_mac";
      type = "text";
      object_types = ip_type ∷ [];
      label = "Discovered MAC";
    })
    ∷ (record {
      name = "oui_vendor";
      type = "text";
      object_types = ip_type ∷ device_type ∷ [];
      label = "OUI vendor";
    })
    ∷ (record {
      name = "dhcp_scope";
      type = "text";
      object_types = "ipam.prefix" ∷ [];
      label = "DHCP scope";
    })
    ∷ (record {
      name = "cert_expiry";
      type = "datetime";
      object_types = device_type ∷ vm_type ∷ [];
      label = "TLS cert expiry";
    })
    ∷ (record {
      name = "cert_issuer";
      type = "text";
      object_types = device_type ∷ vm_type ∷ [];
      label = "TLS cert issuer";
    })
    ∷ (record {
      name = "cert_cn";
      type = "text";
      object_types = device_type ∷ vm_type ∷ [];
      label = "TLS cert CN";
    })
    ∷ []

abbrev field_payload : FieldSpec → Payload
field_payload f = ("name", text f.name) ∷ ("type", text f.type) ∷ ("label", text f.label) ∷ []

abbrev managed_by : String × Value
managed_by = ("description", text "Managed by netbox-monitor")

-- NetBox before 4.0 knows `content_types` in place of `object_types`.
unfoldable pub ensure_custom_field : Client → FieldSpec → Prog (Unit {0})
ensure_custom_field c f = do
  existing ← ask (Request.get Endpoint.custom_fields (("name", text f.name) ∷ []))
  maybe existing
      (try_catch
        (do
          Netbox.create c Endpoint.custom_fields
              (field_payload f ++ ("object_types", texts f.object_types) ∷ managed_by ∷ [])
          pure tt)
        (λ _. do
          Netbox.create c Endpoint.custom_fields
              (field_payload f ++ managed_by ∷ ("content_types", texts f.object_types) ∷ [])
          pure tt))
      (λ _. pure tt)

abbrev pub device_roles : List TagSpec
device_roles =
    (record {
      slug = "discovered";
      name = "Discovered";
      color = "9e9e9e";
      description = "Auto-discovered by netbox-monitor";
    })
    ∷ (record {
      slug = "hypervisor";
      name = "Hypervisor";
      color = "673ab7";
      description = "Proxmox VE node";
    })
    ∷ (record {
      slug = "switch";
      name = "Switch";
      color = "1976d2";
      description = "Network switch (LLDP topology)";
    })
    ∷ []

-- `nb.refs[…] = role.id if role else None`: a reference that is `None` reads as a missing one
unfoldable pub ensure_role : TagSpec → Client → Prog Client
ensure_role r c = do
  role ← ensure c Endpoint.device_roles (("slug", text r.slug) ∷ []) (
      ("name", text r.name)
      ∷ ("color", text r.color)
      ∷ ("description", text r.description)
      ∷ ("vm_role", flag false)
      ∷ [])
  pure (record c {
    refs =
        maybe role (erase ("role_" <> r.slug) c.refs) (λ o. insert ("role_" <> r.slug) o.id c.refs);
  })

abbrev pub source_tag_spec : String → TagSpec
source_tag_spec source_tag = record {
  slug = slugify source_tag;
  name = source_tag;
  color = "3f51b5";
  description = "Apply to switches netbox-monitor should poll for LLDP neighbors";
}

unfoldable pub bootstrap : String → Client → Prog Client
bootstrap source_tag c = do
  tagged ← for_each all_tags c ensure_tag
  sourced ← ensure_tag (source_tag_spec source_tag) tagged
  for_each custom_fields tt (λ f _. ensure_custom_field sourced f)
  for_each device_roles sourced ensure_role
