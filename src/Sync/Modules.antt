-- ===== src/Sync/Modules.antt =====
-- sync/__init__.py: `build_modules`, with the modules that it makes. All modules share one client of NetBox, `Services.netbox`.
pub mod Guard
use netbox_monitor.Prelude.{ℕ, String, Bool, ◌||◌, List, [], ◌∷◌, any, if◌then◌else◌}
use netbox_monitor.Effects.{Prog}
use netbox_monitor.Netbox.{Client}
use netbox_monitor.Scheduler.{SyncModule}
use netbox_monitor.Sync.Availability.{Watch, watch}
use netbox_monitor.Sync.Certs
use netbox_monitor.Sync.Certs.{certs_run}
use netbox_monitor.Sync.Dhcp.Lease
use netbox_monitor.Sync.Dhcp.Lease.{DhcpSite}
use netbox_monitor.Sync.Dhcp.Run.{dhcp_run}
use netbox_monitor.Sync.Discovery
use netbox_monitor.Sync.Discovery.{DiscoverySite, discovery_run}
use netbox_monitor.Sync.Dns.Collect
use netbox_monitor.Sync.Dns.Collect.{DnsSite, dns_run}
use netbox_monitor.Sync.Proxmox.Guest
use netbox_monitor.Sync.Proxmox.{PveSite, proxmox_run}
use netbox_monitor.Sync.Lldp.Run.{Runner, SiteEntry, lldp_run}

-- `enabled` and `interval` of a section of the configuration
pub record Section : Type 0 where
  pub enabled : Bool
  pub interval : ℕ

-- The runtime context, by what each module reads of it.
pub record Services : Type 0 where
  pub netbox : Client
  pub dhcp_section : Section
  pub dhcp : Lease.Setup
  pub dhcp_sites : List DhcpSite
  pub dns_section : Section
  pub dns : Collect.Setup
  pub dns_sites : List DnsSite
  pub discovery_section : Section
  pub discovery : Discovery.Setup
  pub discovery_sites : List DiscoverySite
  pub availability_section : Section
  pub availability : Watch
  pub proxmox_section : Section
  pub proxmox : Guest.Setup
  pub proxmox_sites : List PveSite
  pub lldp_section : Section
  pub lldp : Runner
  pub lldp_sites : List SiteEntry
  pub certs_section : Section
  pub certs : Certs.Setup

-- `(cfg.enabled, SyncModule(…))`, for a module of the list
abbrev pub module_candidate : Bool → String → Section → Prog (Unit {0}) → Bool × SyncModule
module_candidate enabled name section run =
    (enabled, record { name = name; interval = section.interval; run = run })

-- the loop over the candidates
unfoldable pub keep_enabled : List (Bool × SyncModule) → List SyncModule
keep_enabled [] = []
keep_enabled ((enabled, m) ∷ rest) = if enabled then m ∷ keep_enabled rest else keep_enabled rest

module _ (svc : Services) where
  abbrev pub dhcp_setup : Lease.Setup
  dhcp_setup = record svc.dhcp { netbox = svc.netbox }

  abbrev pub dns_setup : Collect.Setup
  dns_setup = record svc.dns { netbox = svc.netbox }

  abbrev pub discovery_setup : Discovery.Setup
  discovery_setup = record svc.discovery { netbox = svc.netbox }

  abbrev pub watch_setup : Watch
  watch_setup = record svc.availability { netbox = svc.netbox }

  abbrev pub proxmox_setup : Guest.Setup
  proxmox_setup = record svc.proxmox { netbox = svc.netbox }

  abbrev pub lldp_runner : Runner
  lldp_runner = record svc.lldp {
    ctx = record svc.lldp.ctx { netbox = svc.netbox };
    lldp_enabled = svc.lldp_section.enabled;
  }

  abbrev pub certs_setup : Certs.Setup
  certs_setup = record svc.certs { netbox = svc.netbox }

  abbrev pub candidates : List (Bool × SyncModule)
  candidates =
      module_candidate svc.dhcp_section.enabled "dhcp" svc.dhcp_section
        (dhcp_run dhcp_setup svc.dhcp_sites)
      ∷ module_candidate svc.dns_section.enabled "dns" svc.dns_section
          (dns_run dns_setup svc.dns_sites)
      ∷ module_candidate svc.discovery_section.enabled "discovery" svc.discovery_section
          (discovery_run discovery_setup svc.discovery_sites)
      ∷ module_candidate svc.availability_section.enabled "availability" svc.availability_section
          (watch watch_setup)
      ∷ module_candidate svc.proxmox_section.enabled "proxmox" svc.proxmox_section
          (proxmox_run proxmox_setup svc.proxmox_sites)
      ∷ module_candidate (svc.lldp_section.enabled || any (λ s. s.lldp_enabled) svc.lldp_sites)
          "lldp" svc.lldp_section (lldp_run lldp_runner svc.lldp_sites)
      ∷ module_candidate svc.certs_section.enabled "certs" svc.certs_section (certs_run certs_setup)
      ∷ []

  unfoldable pub build_modules : List SyncModule
  build_modules = keep_enabled candidates
