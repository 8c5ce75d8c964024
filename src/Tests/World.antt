-- ===== src/Tests/World.antt =====
-- A small network for the tests: a site with a seed switch, its neighbour, and a NetBox that
-- answers from fixed objects.
use netbox_monitor.Prelude.{ℕ, String, true, false, none, some, List, [], ◌∷◌, ◌==◌, if◌then◌else◌}
use netbox_monitor.Wire.Object.{Endpoint, Tag, Obj}
use netbox_monitor.Wire.Dhcp.{Scope, Lease}
use netbox_monitor.Wire.Lldp.{Neighbor}
use netbox_monitor.Wire.Request.{Request, Reply, Answer, answered, failed, ExnClass}
use netbox_monitor.Effects.Run.{Environment}
use netbox_monitor.Netbox.{Client}

abbrev pub blank : Endpoint → ℕ → String → Obj
blank kind id name = record {
  id = id;
  kind = kind;
  name = name;
  tags = [];
  address = "";
  dns_name = "";
  description = "";
  status = "active";
  status_label = "active";
  custom_fields = [];
  assigned_object_type = none;
  assigned_object_id = none;
  assigned_device = none;
  assigned_vm = none;
  primary_ip = none;
  primary_ip4 = none;
  primary_ip6 = none;
  site = none;
  device_site = none;
  device = none;
  virtual_machine = none;
  platform = "";
  cable = none;
  mac_address = none;
  primary_mac_address = none;
  prefix = "";
  prefix_len = none;
  cluster = none;
  vcpus = none;
  memory = none;
  disk = none;
  created = false;
}

abbrev pub managed_tag : Tag
managed_tag = record { id = 1; slug = "managed-netbox-monitor" }

abbrev pub scan_tag : Tag
scan_tag = record { id = 2; slug = "src-scan" }

abbrev pub stale_tag : Tag
stale_tag = record { id = 3; slug = "stale" }

abbrev pub seed : Obj
seed = record (blank Endpoint.devices 7 "core") {
  tags = managed_tag ∷ [];
  primary_ip4 = some (record { id = 70; address = "10.0.0.2/24" });
}

abbrev pub host : Obj
host = record (blank Endpoint.devices 8 "printer") {
  tags = managed_tag ∷ scan_tag ∷ stale_tag ∷ [];
  custom_fields = ("last_seen", "2024-01-01") ∷ ("owner", "ops") ∷ [];
}

abbrev pub human_device : Obj
human_device = record (blank Endpoint.devices 9 "nas") { tags = scan_tag ∷ [] }

abbrev pub host_ip : Obj
host_ip = record (blank Endpoint.ip_addresses 80 "") {
  tags = managed_tag ∷ scan_tag ∷ [];
  address = "10.0.0.8/24";
}

abbrev pub human_ip : Obj
human_ip = record (blank Endpoint.ip_addresses 81 "") { address = "10.0.0.9/24" }

abbrev pub client : Client
client = record {
  dry_run = false;
  tag_table = ("managed-netbox-monitor", 1) ∷ ("src-scan", 2) ∷ ("stale", 3) ∷ ("src-lldp", 4) ∷ [];
  refs = [];
}

abbrev pub neighbor : Neighbor
neighbor = record {
  local_port = "1";
  chassis_mac = none;
  sysname = some "edge";
  remote_port = some "2";
  remote_port_is_mac = false;
  mgmt_ip = some "10.0.0.3";
  capabilities = "bridge" ∷ [];
  sys_descr = none;
}

abbrev pub scope : Scope
scope = record {
  name = some "lan";
  starting = some "10.0.0.100";
  ending = some "10.0.0.200";
  mask = some "255.255.255.0";
  enabled = true;
}

abbrev pub lease : Lease
lease = record {
  address = some "10.0.0.110";
  type = some "Dynamic";
  hardware = some "02-00-00-00-00-01";
  hostname = some "phone.lan";
  scope = "lan";
}

abbrev filtered : Endpoint → List Obj
filtered Endpoint.devices = seed ∷ host ∷ human_device ∷ []
filtered Endpoint.ip_addresses = host_ip ∷ human_ip ∷ []
filtered _ = []

-- The switches answer on their second attempt's driver, with one neighbour.
abbrev answers : (r : Request) → Unit {0} → Answer (Reply r) × Unit {0}
answers (Request.create e d) s = (answered (blank e 100 "new"), s)
answers (Request.update o d) s = (answered (true, o), s)
answers (Request.delete o) s = (answered true, s)
answers (Request.get e q) s = (answered none, s)
answers (Request.filter e q) s = (answered (filtered e), s)
answers Request.netbox_version s = (answered "4.1", s)
answers (Request.select_host k) s = (answered none, s)
answers (Request.upsert_host h) s = (answered tt, s)
answers (Request.update_stale k b) s = (answered tt, s)
answers (Request.delete_host k) s = (answered tt, s)
answers (Request.select_kv k) s = (answered none, s)
answers (Request.upsert_kv k v) s = (answered tt, s)
answers (Request.delete_kv k) s = (answered tt, s)
answers (Request.select_kv_like k) s = (answered [], s)
answers (Request.dhcp_scopes i) s = (answered (scope ∷ []), s)
answers (Request.dhcp_leases i) s = (answered (lease ∷ []), s)
answers Request.load_oui s = (answered [], s)
answers (Request.zones_page i p) s = (
  answered (record {
    zones = (record { name = "lan"; type = some "Primary"; disabled = false }) ∷ [];
    total_pages = some 3;
  }),
  s,
)
answers (Request.zone_records i z) s = (
  answered (
      (record {
        name = some "Printer.lan";
        type = some "A";
        ip_address = some "10.0.0.8";
        ptr_name = none;
      })
      ∷ []),
  s,
)
answers Request.arp_table s = (answered [], s)
answers (Request.reverse_dns ip) s = (answered (some "printer.lan"), s)
answers (Request.fetch_cert h n) s = (
  answered (
      some (record {
        not_after = 1700500000;
        issuer_name = "";
        issuer_organization = "Lab";
        subject_name = h;
      })),
  s,
)
answers (Request.pve_cluster_name h) s = (answered "pve", s)
answers (Request.pve_nodes h) s =
    (answered ((record { node = "pve1"; status = some "online" }) ∷ []), s)
answers (Request.pve_guests h n k) s = (
  answered (
      (record {
        vmid = 100;
        name = none;
        status = some "running";
        maxmem = 1073741824;
        maxcpu = some 2;
        cpus = none;
        maxdisk = 0;
      })
      ∷ []),
  s,
)
answers (Request.pve_config h n k i) s =
    (answered (record { macs = ("net0", "02:00:00:00:00:09") ∷ []; lxc_ips = [] }), s)
answers (Request.pve_agent h n i) s = (answered ("127.0.0.1" ∷ "10.0.0.12" ∷ []), s)
answers (Request.wait m t) s = (answered (false, false), s)
answers Request.monotonic s = (answered 5, s)
answers Request.time s = (answered 1700000000, s)
answers Request.now_iso s = (answered "2024-01-01", s)
answers (Request.ping ips) s = (answered [], s)
answers (Request.collect d h u p c) s =
    if d == "snmp"
    then (answered (neighbor ∷ []), s)
    else (failed (record { class = ExnClass.other; type_name = "AuthError"; text = "denied" }), s)
answers (Request.collect_macs d h u p c) s = (answered [], s)
answers (Request.device_secrets i) s =
    (answered (record { ssh_username = none; ssh_password = none; snmp_community = none }), s)

abbrev pub world : Environment (Unit {0})
world = record { answer = answers }
