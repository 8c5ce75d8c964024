-- ===== src/Sync/Common/Guard.antt =====
-- The helpers of sync/common.py keep to what the client permits: they write through its guarded
-- methods alone.
use netbox_monitor.Prelude.{ℕ, String, Bool, Option, none, Dict}
use netbox_monitor.Wire.Object.{Obj}
use netbox_monitor.Wire.Request.{Exn, ExnClass}
use netbox_monitor.Effects.{raise, pure}
use netbox_monitor.Effects.Only.{Only}
use netbox_monitor.Netbox.{Client}
use netbox_monitor.Netbox.Guard.{Permitted, client_rules}
use netbox_monitor.Sync.Common.Lookup.{
  prefix_len_for_ip, find_ip, has_mac_objects, find_interface_by_mac,
}
use netbox_monitor.Sync.Common.Upsert.{
  IpSpec, create_ip, update_ip, upsert_ip, link_assigned, link_primary_ip,
}
use netbox_monitor.Sync.Common.Host.{
  HostSpec, ensure_discovered_device_type, ensure_mac_object, set_interface_mac, device_by_mac,
  find_host_device, migrate_device, create_host_device, host_interface, set_host_primary,
  document_host, refresh_host, ensure_host_device,
}

module _ (c : Client) where
  prefix_len_for_ip-Permitted : (ip : String) → Only (Permitted c) (prefix_len_for_ip ip)
  unfolding prefix_len_for_ip
  prefix_len_for_ip-Permitted ip = search client_rules

  pub find_ip-Permitted : (ip : String) → Only (Permitted c) (find_ip ip)
  unfolding find_ip
  find_ip-Permitted ip = search client_rules

  has_mac_objects-Permitted : Only (Permitted c) has_mac_objects
  unfolding has_mac_objects
  has_mac_objects-Permitted = search client_rules

  pub find_interface_by_mac-Permitted :
      (mac : String) → Only (Permitted c) (find_interface_by_mac mac)
  unfolding find_interface_by_mac
  find_interface_by_mac-Permitted mac = search (client_rules, has_mac_objects-Permitted) depth 14

  rejected-Permitted :
      (e : Exn)
      → Only
          (Permitted c)
          {A = Option Obj}
          (elim e.class [ ExnClass.request_error ↦ pure none | _ ↦ raise e ])
  rejected-Permitted e = go e.class
    where
      go :
          (k : ExnClass)
          → Only
              (Permitted c)
              {A = Option Obj}
              (elim k [ ExnClass.request_error ↦ pure none | _ ↦ raise e ])
      go ExnClass.request_error = search client_rules
      go _ = search client_rules

  create_ip-Permitted : (s : IpSpec) (d : Dict String) → Only (Permitted c) (create_ip c s d)
  unfolding create_ip
  create_ip-Permitted s d = search (client_rules, rejected-Permitted, prefix_len_for_ip-Permitted)

  update_ip-Permitted :
      (s : IpSpec) (d : Dict String) (o : Obj) → Only (Permitted c) (update_ip c s d o)
  unfolding update_ip
  update_ip-Permitted s d o = search client_rules

  pub upsert_ip-Permitted : (s : IpSpec) → Only (Permitted c) (upsert_ip c s)
  unfolding upsert_ip
  upsert_ip-Permitted s =
      search (client_rules, create_ip-Permitted, update_ip-Permitted, find_ip-Permitted)

  link_assigned-Permitted :
      (t : String) (p : ℕ) (ip i : Obj) → Only (Permitted c) (link_assigned c t p ip i)
  unfolding link_assigned
  link_assigned-Permitted t p ip i = search client_rules depth 10

  pub link_primary_ip-Permitted :
      (t : String) (p : Option ℕ) (ip i : Option Obj)
      → Only (Permitted c) (link_primary_ip c t p ip i)
  unfolding link_primary_ip
  link_primary_ip-Permitted t p ip i = search (client_rules, link_assigned-Permitted)

  pub ensure_discovered_device_type-Permitted :
      (v : Option String) → Only (Permitted c) (ensure_discovered_device_type c v)
  unfolding ensure_discovered_device_type
  ensure_discovered_device_type-Permitted v = search client_rules

  ensure_mac_object-Permitted :
      (o : Obj) (m t : String) → Only (Permitted c) (ensure_mac_object c o m t)
  unfolding ensure_mac_object
  ensure_mac_object-Permitted o m t = search client_rules

  pub set_interface_mac-Permitted :
      (o : Obj) (m t : String) → Only (Permitted c) (set_interface_mac c o m t)
  unfolding set_interface_mac
  set_interface_mac-Permitted o m t =
      search (client_rules, has_mac_objects-Permitted, ensure_mac_object-Permitted) depth 12

  pub device_by_mac-Permitted : (m : String) → Only (Permitted c) (device_by_mac m)
  unfolding device_by_mac
  device_by_mac-Permitted m = search (client_rules, find_interface_by_mac-Permitted) depth 8

  find_host_device-Permitted : (s : HostSpec) → Only (Permitted c) (find_host_device s)
  unfolding find_host_device
  find_host_device-Permitted s = search (client_rules, device_by_mac-Permitted)

  migrate_device-Permitted :
      (s : HostSpec) (b : Bool) (o : Obj) → Only (Permitted c) (migrate_device c s b o)
  unfolding migrate_device
  migrate_device-Permitted s b o = search client_rules

  create_host_device-Permitted :
      (s : HostSpec) (site : ℕ) → Only (Permitted c) (create_host_device c s site)
  unfolding create_host_device
  create_host_device-Permitted s site =
      search (client_rules, ensure_discovered_device_type-Permitted)

  host_interface-Permitted : (s : HostSpec) (o : Obj) → Only (Permitted c) (host_interface c s o)
  unfolding host_interface
  host_interface-Permitted s o = search client_rules

  set_host_primary-Permitted :
      (d : Obj) (i p : Option Obj) → Only (Permitted c) (set_host_primary c d i p)
  unfolding set_host_primary
  set_host_primary-Permitted d i p = search client_rules depth 8

  document_host-Permitted : (s : HostSpec) (o : Obj) → Only (Permitted c) (document_host c s o)
  unfolding document_host
  document_host-Permitted s o =
      search
        (
          client_rules, host_interface-Permitted, set_interface_mac-Permitted, upsert_ip-Permitted,
          set_host_primary-Permitted,
        )
        depth 8

  refresh_host-Permitted : (s : HostSpec) (o : Obj) → Only (Permitted c) (refresh_host c s o)
  unfolding refresh_host
  refresh_host-Permitted s o = search (client_rules, document_host-Permitted) depth 8

  pub ensure_host_device-Permitted : (s : HostSpec) → Only (Permitted c) (ensure_host_device c s)
  unfolding ensure_host_device
  ensure_host_device-Permitted s =
      search
        (
          client_rules, find_host_device-Permitted, create_host_device-Permitted,
          document_host-Permitted, migrate_device-Permitted, refresh_host-Permitted,
        )
        depth 8

pub ruleset common_rules = (
  client_rules, find_ip-Permitted, find_interface_by_mac-Permitted, upsert_ip-Permitted,
  link_primary_ip-Permitted, ensure_discovered_device_type-Permitted, set_interface_mac-Permitted,
  ensure_host_device-Permitted,
)
