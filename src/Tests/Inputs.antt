-- ===== src/Tests/Inputs.antt =====
-- What the services of the small network are configured with, and the hosts they are asked for.
use netbox_monitor.Prelude.{true, false, none, some, [], ◌∷◌}
use netbox_monitor.Wire.Lldp.{Credential}
use netbox_monitor.Sync.Cleanup.{Selection}
use netbox_monitor.Sync.Common.Upsert.{IpSpec}
use netbox_monitor.Sync.Common.Host.{HostSpec}
use netbox_monitor.State.{Db}
use netbox_monitor.Sync.Availability.{Watch}
use netbox_monitor.Sync.Dhcp.Lease.{Setup, DhcpSite}
use netbox_monitor.Sync.Lldp.Run.{Runner, SiteEntry}
use netbox_monitor.Sync.Lldp.Types.{Context, Site}
use netbox_monitor.Tests.World.{client}

abbrev pub profile : Credential
profile = record {
  name = "lab";
  driver = "auto";
  username = "admin";
  password = "pw";
  snmp_community = "public";
}

abbrev pub ctx : Context
ctx = record {
  netbox = client;
  vendors = [];
  dump_cred = λ d n. d;
  load_cred = λ s. none;
  source_tag = "lldp-source";
  max_switches = 5;
  max_depth = 2;
  max_auth_attempts = 8;
  crawl_enabled = true;
  credentials = profile ∷ [];
  exclude_hosts = "10.0.0.3" ∷ [];
  has_secrets = false;
}

abbrev pub site : Site
site = record {
  id = "lab";
  netbox_site_id = some 1;
  ssh_username = "";
  ssh_password = "";
  snmp_community = "";
}

abbrev pub selection : Selection
selection = record {
  object_types = "devices" ∷ "ip_addresses" ∷ [];
  site_slug = none;
  source = some "src-scan";
  only_stale = false;
  not_seen_days = none;
  dry_run = false;
}

abbrev pub spec : HostSpec
spec = record {
  name = "printer";
  ip = "10.0.0.8";
  source_slug = "src-scan";
  site_id = some 1;
  mac = none;
  vendor = some "Acme";
  dns_name = "";
  description = "discovered";
}

abbrev pub ip_spec : IpSpec
ip_spec = record {
  ip = "10.0.0.9";
  source_slug = "src-scan";
  status = "active";
  dns_name = "nas";
  description = "";
  mac = none;
  vendor = none;
  assigned_object_type = none;
  assigned_object_id = none;
}

abbrev pub watch_setup : Watch
watch_setup = record {
  netbox = client;
  stale_after = 600;
  grace_days = 7;
  exclude_prefixes = "10.0.0.0/28" ∷ [];
  show_num = λ _. "n";
  show_time = λ _. "t";
  read_time = λ _. some 1;
}

abbrev pub dhcp_setup : Setup
dhcp_setup = record {
  netbox = client;
  delete_on_expiry = true;
  show_num = λ _. "n";
  dump = λ _ _ s _. s;
}

abbrev pub dhcp_site : DhcpSite
dhcp_site = record {
  id = "lab";
  netbox_site_id = some 1;
  has_technitium = true;
  dhcp_enabled = true;
}

abbrev pub no_hosts : Db
no_hosts = record { hosts = []; kv = [] }

abbrev pub runner : Runner
runner = record { ctx = ctx; lldp_enabled = true; show_num = λ _. "n"; dump = λ _ _ s _. s }

abbrev pub entry : SiteEntry
entry = record { site = site; lldp_enabled = false }
