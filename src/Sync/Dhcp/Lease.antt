-- ===== src/Sync/Dhcp/Lease.antt =====
-- sync/dhcp.py: one lease, reserved or dynamic.
use netbox_monitor.Prelude.{
  ℕ, String, Bool, not, ◌&&◌, Option, none, some, List, [], ◌∷◌, ◌++◌, Dict, mem, if◌then◌else◌,
  maybe, truthy, non_empty, before, ◌==◌, ◌<>◌,
}
use netbox_monitor.Wire.Object.{Endpoint, text, num}
use netbox_monitor.Wire.Dhcp.{Lease}
use netbox_monitor.Wire.Request.{Request}
use netbox_monitor.Effects.{Prog, pure, try_catch, ask, ◌>>=◌, ◌>>◌}
use netbox_monitor.Net.Names.{sanitize_dns_name}
use netbox_monitor.Net.Oui.{normalize_mac, oui_lookup}
use netbox_monitor.Netbox
use netbox_monitor.Netbox.{Client, is_managed, set_custom_fields, filter_tagged}
use netbox_monitor.Netbox.Slug.{lower}
use netbox_monitor.Sync.Common.Lookup.{find_ip, find_interface_by_mac, Match, vm_interface_type}
use netbox_monitor.Sync.Common.Upsert.{upsert_ip, link_primary_ip, has_id}
use netbox_monitor.Sync.Common.Host.{ensure_host_device}

-- What the module reads of `ctx`. `show_num` is `str` of an integer, `dump` the JSON of a status.
pub record Setup : Type 0 where
  pub netbox : Client
  pub delete_on_expiry : Bool
  pub show_num : ℕ → String
  pub dump : ℕ → Bool → String → ℕ → String

pub record DhcpSite : Type 0 where
  pub id : String
  pub netbox_site_id : Option ℕ
  pub has_technitium : Bool
  pub dhcp_enabled : Bool

abbrev pub dhcp_source : String
dhcp_source = "src-dhcp"

-- The two sets of addresses, each in the order of its first additions.
pub record Leases : Type 0 where
  pub active : List String
  pub reserved : List String

-- `addresses.add(a)`
unfoldable pub add_address : String → List String → List String
add_address a addresses = if mem a addresses then addresses else addresses ++ a ∷ []

abbrev pub is_reserved : Lease → Bool
is_reserved l = lower (maybe l.type "" (λ t. t)) == "reserved"

unfoldable pub note_lease : Lease → String → Leases → Leases
note_lease l address ls =
    if is_reserved l
    then record ls { reserved = add_address address ls.reserved }
    else record ls { active = add_address address ls.active }

abbrev pub host_name : String → String → String
host_name hostname address =
    if non_empty hostname then before b'.' hostname else "reserved-" <> address

module _ (ctx : Setup) where
  -- The values that a round of the loop over the leases computes first.
  abbrev pub mac_of : Lease → Option String
  mac_of l = normalize_mac (maybe l.hardware "" (λ h. h))

  abbrev pub vendor_of : Dict String → Lease → Option String
  vendor_of vendors l = maybe (truthy (mac_of l)) none (oui_lookup vendors)

  unfoldable pub drop_duplicate : String → Prog (Unit {0})
  drop_duplicate name = do
    duplicate ← ask (Request.get Endpoint.devices (("name", text name) ∷ []))
    maybe duplicate (pure tt) (λ d.
        if is_managed d (some dhcp_source)
        then (Netbox.delete ctx.netbox d dhcp_source >>= λ _. pure tt)
        else pure tt)

  unfoldable pub move_to_vm : Match → String → Prog (Unit {0})
  move_to_vm m address = do
    found ← find_ip address
    maybe found (pure tt) (λ ip.
        if is_managed ip (some dhcp_source) && not (has_id ip.assigned_object_id m.iface.id)
        then (do
          Netbox.update ctx.netbox ip
              (("assigned_object_type", text m.type) ∷ ("assigned_object_id", num m.iface.id) ∷ [])
          pure tt)
        else pure tt)

  unfoldable pub attach_reservation_to_vm :
      Match → String → String → String → Option String → Option String → Prog (Unit {0})
  attach_reservation_to_vm m address hostname scope_name mac vendor = do
    drop_duplicate (host_name hostname address)
    move_to_vm m address
    ip ← upsert_ip ctx.netbox (record {
      ip = address;
      source_slug = dhcp_source;
      status = "active";
      dns_name = hostname;
      description = "DHCP reservation in scope '" <> scope_name <> "'";
      mac = mac;
      vendor = vendor;
      assigned_object_type = some m.type;
      assigned_object_id = some m.iface.id;
    })
    maybe ip (pure tt) (λ o. link_primary_ip ctx.netbox m.type m.parent (some o) (some m.iface))

  abbrev lookup_match : Option String → Prog (Option Match)
  lookup_match mac = maybe (truthy mac) (pure none) find_interface_by_mac

  unfoldable pub sync_reserved :
      DhcpSite → String → String → String → Option String → Option String → Prog (Unit {0})
  sync_reserved site address hostname scope_name mac vendor = do
    found ← lookup_match mac
    let vm = maybe found none (λ m. if m.type == vm_interface_type then some m else none)
    maybe vm
        (do
          ensure_host_device ctx.netbox (record {
            name = host_name hostname address;
            ip = address;
            source_slug = dhcp_source;
            site_id = site.netbox_site_id;
            mac = mac;
            vendor = vendor;
            dns_name = hostname;
            description = "DHCP reservation in scope '" <> scope_name <> "'";
          })
          pure tt)
        (λ m. attach_reservation_to_vm m address hostname scope_name mac vendor)

  unfoldable pub sync_dynamic :
      String → String → String → Option String → Option String → Prog (Unit {0})
  sync_dynamic address hostname scope_name mac vendor = do
    found ← lookup_match mac
    ip ← upsert_ip ctx.netbox (record {
      ip = address;
      source_slug = dhcp_source;
      status = "dhcp";
      dns_name = hostname;
      description = "DHCP lease in scope '" <> scope_name <> "'";
      mac = mac;
      vendor = vendor;
      assigned_object_type = maybe found none (λ m. some m.type);
      assigned_object_id = maybe found none (λ m. some m.iface.id);
    })
    maybe found (pure tt) (λ m.
        maybe ip (pure tt)
          (λ o. link_primary_ip ctx.netbox m.type m.parent (some o) (some m.iface)))

  -- One round of the loop: the address is noted whether or not the rest raises.
  unfoldable pub sync_lease : DhcpSite → Dict String → Lease → Leases → Prog Leases
  sync_lease site vendors l ls = maybe (truthy l.address) (pure ls) (λ address. do
    let hostname = sanitize_dns_name l.hostname
    try_catch
        (if is_reserved l
          then sync_reserved site address hostname l.scope (mac_of l) (vendor_of vendors l)
          else sync_dynamic address hostname l.scope (mac_of l) (vendor_of vendors l))
        (λ _. pure tt)
    pure (note_lease l address ls))
