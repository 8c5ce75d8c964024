-- ===== src/Tests/Modules.antt =====
-- The modules that a configuration enables, their loops, and the certificates of a host.
use netbox_monitor.Prelude.{
  mem, none, ℕ, ◌≡◌, refl, String, Bool, true, false, some, [], ◌∷◌, All, map,
}
use netbox_monitor.Wire.Certs.{Cert}
use netbox_monitor.Wire.Request.{ExnClass}
use netbox_monitor.Effects.{pure, raise}
use netbox_monitor.Netbox.{is_managed}
use netbox_monitor.Wire.Proxmox
use netbox_monitor.Effects.Run.{run}
use netbox_monitor.Scheduler.{SyncModule, sync_loop}
use netbox_monitor.Sync.Certs
use netbox_monitor.Sync.Certs.{closest, health, expiring}
use netbox_monitor.Sync.Dns.Collect
use netbox_monitor.Sync.Discovery
use netbox_monitor.Sync.Discovery.{DiscoverySite}
use netbox_monitor.Sync.Proxmox.{PveSite, mark_gone}
use netbox_monitor.Sync.Proxmox.Guest
use netbox_monitor.Sync.Proxmox.Guest.{Wanted, proxmox_source, guest_key, guest_name, settle_guest}
use netbox_monitor.Sync.Proxmox.Respect.{settle_guest-unmanaged}
use netbox_monitor.Sync.Modules.{Section, Services, build_modules, keep_enabled}
use netbox_monitor.Sync.Modules.Guard.{IsGuarded, build_modules-trace}
use netbox_monitor.Tests.World.{host, human_device, world, client}
use netbox_monitor.Tests.Inputs.{watch_setup, dhcp_setup, dhcp_site, runner, entry}

abbrev dump : ℕ → Bool → String → ℕ → String
dump started ok message took = message

abbrev dns_setup : Collect.Setup
dns_setup = record {
  netbox = client;
  zones_exclude = "lab" ∷ [];
  fuel = 3;
  numerals = record { from_hex = λ _. some 1; show_address = λ _. some "0.0.0.1" };
  show_num = λ n. "n";
  dump = dump;
}

abbrev discovery_setup : Discovery.Setup
discovery_setup = record {
  netbox = client;
  max_hosts_per_prefix = 2;
  number_of_sites = 1;
  is_v6 = λ _. false;
  show_num = λ n. "n";
  dump = dump;
}

abbrev lan : DiscoverySite
lan = record {
  id = "lan";
  netbox_site = "lan";
  netbox_site_id = some 1;
  enabled = true;
  has_technitium = true;
  include_prefixes = "10.0.0.0/29" ∷ [];
  exclude_prefixes = [];
}

abbrev certs_setup : Certs.Setup
certs_setup = record {
  netbox = client;
  ports = 443 ∷ 8443 ∷ [];
  expiring_days = 21;
  show_num = λ n. "n";
  show_time = λ n. "t";
}

abbrev proxmox_setup : Guest.Setup
proxmox_setup = record { netbox = client; show_num = λ n. "100"; dump = dump }

abbrev pve_site : PveSite
pve_site = record {
  id = "lan";
  netbox_site_id = some 1;
  instances = (record { host = "10.0.0.3" }) ∷ [];
  enabled = true;
}

abbrev on : Section
on = record { enabled = true; interval = 300 }

abbrev off : Section
off = record { enabled = false; interval = 300 }

abbrev services : Services
services = record {
  netbox = client;
  dhcp_section = on;
  dhcp = dhcp_setup;
  dhcp_sites = dhcp_site ∷ [];
  dns_section = on;
  dns = dns_setup;
  dns_sites = (record { id = "lan"; has_technitium = true; dns_enabled = true }) ∷ [];
  discovery_section = on;
  discovery = discovery_setup;
  discovery_sites = lan ∷ [];
  availability_section = off;
  availability = watch_setup;
  proxmox_section = on;
  proxmox = proxmox_setup;
  proxmox_sites = pve_site ∷ [];
  lldp_section = on;
  lldp = runner;
  lldp_sites = entry ∷ [];
  certs_section = on;
  certs = certs_setup;
}

modules_are_built :
    map (λ m. m.name) (build_modules services)
    ≡ "dhcp" ∷ "dns" ∷ "discovery" ∷ "proxmox" ∷ "lldp" ∷ "certs" ∷ []
unfolding build_modules keep_enabled
modules_are_built = refl

build_modules-trace_example :
    All
      (λ m. All (IsGuarded services) (run world (sync_loop dump 2 m 10) tt).trace)
      (build_modules services)
build_modules-trace_example = build_modules-trace world tt services dump 2 10

-- a module that always raises
abbrev broken : SyncModule
broken = record {
  name = "broken";
  interval = 60;
  run = raise (record { class = ExnClass.other; type_name = "KeyError"; text = "boom" });
}

abbrev soon : Cert
soon = record {
  not_after = 1700864000;
  issuer_name = "";
  issuer_organization = "Lab";
  subject_name = "nas";
}

abbrev late : Cert
late = record soon { not_after = 1800000000 }

soon_is_expiring : health 21 (closest late (soon ∷ [])) 1700000000 ≡ expiring 10
unfolding health closest
soon_is_expiring = refl

-- a guest without a name
abbrev unnamed : Proxmox.Guest
unnamed = record {
  vmid = 100;
  name = none;
  status = some "running";
  maxmem = 1073741824;
  maxcpu = some 2;
  cpus = none;
  maxdisk = 0;
}

-- The virtual machine of a guest without a name is not among the names that were seen.
unnamed_is_not_seen :
    mem (guest_name proxmox_setup Proxmox.qemu unnamed) (guest_key proxmox_setup unnamed ∷ [])
    ≡ false
unnamed_is_not_seen = refl

abbrev wanted_guest : Wanted
wanted_guest = record {
  status = "active";
  vcpus = some 2;
  memory = some 1024;
  disk = none;
  device = none;
}

settle_guest-unmanaged_example :
    (settle_guest proxmox_setup "10.0.0.3" host "pve1" Proxmox.qemu unnamed wanted_guest
        (some human_device)
      ≡ pure tt)
    × (mark_gone proxmox_setup [] human_device ≡ pure tt)
unfolding is_managed
settle_guest-unmanaged_example =
    settle_guest-unmanaged proxmox_setup "10.0.0.3" host human_device "pve1" Proxmox.qemu unnamed
      wanted_guest [] refl
