-- ===== src/Wire/Request.antt =====
-- Every interaction of the modelled code with the outside, and the type of its answer.
use netbox_monitor.Prelude.{ℕ, String, Bool, true, false, List, Option, Dict}
use netbox_monitor.Wire.Object.{Endpoint, Obj, Payload}
use netbox_monitor.Wire.Dhcp.{Scope, Lease}
use netbox_monitor.Wire.Dns.{ZonePage, ZoneRecord}
use netbox_monitor.Wire.Certs.{Cert}
use netbox_monitor.Wire.Proxmox.{Node, Kind, Guest, GuestConfig}
use netbox_monitor.Wire.Lldp.{Neighbor, DeviceSecrets}

-- The classes of exceptions that an `except` clause of the source tells apart.
pub data ExnClass : Type 0 where
  request_error permission_denied os_error value_error other : ExnClass

pub record Exn : Type 0 where
  pub class : ExnClass
  pub type_name : String
  pub text : String

-- `HostState` of state.py
pub record HostState : Type 0 where
  pub key : String
  pub last_seen : Option ℕ
  pub last_checked : Option ℕ
  pub is_up : Bool
  pub is_stale : Bool

pub data Request : Type 0 where
  -- NetBox, through pynetbox
  create : Endpoint → Payload → Request
  update : Obj → Payload → Request
  delete : Obj → Request
  get : Endpoint → Payload → Request
  filter : Endpoint → Payload → Request
  netbox_version : Request
  -- the SQL statements of state.py
  select_host : String → Request
  upsert_host : HostState → Request
  update_stale : String → Bool → Request
  delete_host : String → Request
  select_kv : String → Request
  upsert_kv : String → String → Request
  delete_kv : String → Request
  select_kv_like : String → Request
  -- clocks and probes
  time : Request
  monotonic : Request
  now_iso : Request
  ping : List String → Request
  -- driver, host, user name, password, SNMP community
  collect : String → String → String → String → String → Request
  collect_macs : String → String → String → String → String → Request
  device_secrets : ℕ → Request
  -- Technitium, by the site's id; the OUI table
  dhcp_scopes : String → Request
  dhcp_leases : String → Request
  load_oui : Request
  -- a page of the zones, and the records of a zone
  zones_page : String → ℕ → Request
  zone_records : String → String → Request
  -- the neighbour table of the system, and its resolver
  arp_table : Request
  reverse_dns : String → Request
  -- the methods of `ProxmoxClient`, by the host of the instance; a node, a kind of guest, and a number
  pve_cluster_name : String → Request
  pve_nodes : String → Request
  pve_guests : String → String → Kind → Request
  pve_config : String → String → Kind → ℕ → Request
  pve_agent : String → String → ℕ → Request
  -- a wait of a module's loop for so many seconds at most, for the events `stop`, `reload_evt` and `trigger`:
  -- whether the first two are set then
  wait : String → ℕ → Request
  -- `fetch_cert`, of a host and a port
  fetch_cert : String → ℕ → Request

-- An `update` also changes the local object; what it is afterwards is the client library's affair.
abbrev pub Reply : Request → Type 0
Reply (create e d) = Obj
Reply (update o d) = Bool × Obj
Reply (delete o) = Bool
Reply (get e q) = Option Obj
Reply (filter e q) = List Obj
Reply netbox_version = String
Reply (select_host k) = Option HostState
Reply (select_kv k) = Option String
Reply (select_kv_like p) = Dict String
Reply time = ℕ
Reply monotonic = ℕ
Reply (dhcp_scopes s) = List Scope
Reply (dhcp_leases s) = List Lease
Reply load_oui = Dict String
Reply (zones_page s p) = ZonePage
Reply (zone_records s z) = List ZoneRecord
Reply arp_table = Dict String
Reply (reverse_dns ip) = Option String
Reply (pve_cluster_name host) = String
Reply (pve_nodes host) = List Node
Reply (pve_guests host node kind) = List Guest
Reply (pve_config host node kind vmid) = GuestConfig
Reply (pve_agent host node vmid) = List String
Reply (wait name timeout) = Bool × Bool
Reply (fetch_cert ip port) = Option Cert
Reply now_iso = String
Reply (ping ips) = List (String × Bool)
Reply (collect d h u p c) = List Neighbor
Reply (collect_macs d h u p c) = Dict (Option String)
Reply (device_secrets i) = DeviceSecrets
Reply _ = Unit {0}

-- What changes NetBox.
abbrev pub is_write : Request → Bool
is_write (create e d) = true
is_write (update o d) = true
is_write (delete o) = true
is_write _ = false

-- An answer, or the exception that the call raised.
pub data Answer (A : Type 0) : Type 0 where
  answered : A → Answer A
  failed : Exn → Answer A
