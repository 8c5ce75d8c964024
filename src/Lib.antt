-- ===== src/Lib.antt =====
-- A model of netbox-monitor, the service that documents a network in NetBox: the guarded NetBox
-- client, the reconciliation helpers, the bulk cleanup, the LLDP crawl, the availability monitor,
-- the DHCP sync, the DNS sync, the ping discovery, the Proxmox sync, the certificates, the loops
-- of the modules and the engine, the bootstrap, the state database, the store of the settings, the
-- login, and the migration, the export and the import of a configuration.
--
-- Programs. The service is Python code that interleaves computation with calls to NetBox (through
-- pynetbox), to its SQLite file, to the clock, to ping and to switches. A function that makes such
-- calls is a `Prog A` (Effects): a tree of requests with a continuation for every answer, where an
-- answer is a value or the exception that the call raised. `try_catch` is `try … except`,
-- `for_each` is a `for` loop with its local variables as the state. Nothing is assumed of the
-- answers, so a theorem on all runs covers every NetBox and every switch. Effects.Only speaks of all
-- requests that a program can make, Effects.AtMost counts them, Effects.Ensures speaks of the value
-- returned, and Effects.Run runs a program against an environment and carries the three over to
-- traces and results.
--
-- Parts.
--   Wire: the data that crosses the boundary; Wire.Object has NetBox objects with the attributes
--     that the source reads, Wire.Request the requests and the types of their answers.
--   Netbox: src/netbox_monitor/clients/netbox.py, each method of `NetBoxClient` by its name.
--     Netbox.Guard has what the client may ask for, Netbox.Tags the payloads of tags and fields.
--   Sync.Common: src/netbox_monitor/sync/common.py (`find_interface_by_mac`, `upsert_ip`,
--     `link_primary_ip`, `ensure_host_device`, …).
--   Sync.Cleanup: src/netbox_monitor/sync/cleanup.py (`delete_managed` and its local functions;
--     Inventory has `inventory`).
--   Lldp: src/netbox_monitor/lldp/__init__.py and registry.py.
--   Sync.Lldp: src/netbox_monitor/sync/lldp.py; Attempts plans the attempts, Poll makes them,
--     Switch, Merge and Cable write to NetBox, Crawl is the loop over the queue, Run `run`.
--   State: src/netbox_monitor/state.py; `statement` is what the SQL does to the two tables, State.Laws
--     what a sequence of checks leaves. Status: `record` of src/netbox_monitor/status.py.
--   Net: IPv4 addresses and networks as `ipaddress` parses them (Ipv4), src/netbox_monitor/oui.py
--     (Oui) and `sanitize_dns_name` of src/netbox_monitor/net_utils.py (Names).
--   Sync.Availability: src/netbox_monitor/sync/availability.py; Stale has the thresholds.
--   Sync.Dhcp: src/netbox_monitor/sync/dhcp.py; Lease has one lease, Run the scopes, the expiry and
--     `run`, Kept what the sets of a site list.
--   Json: serialized documents. Config: the migrations of src/netbox_monitor/config.py. Transfer:
--     src/netbox_monitor/config_transfer.py; Redact has `redact` and the payload of an export, Merge
--     the merge of a redacted import, Envelope the file format, `export_config` and `import_config`.
--   Bootstrap: src/netbox_monitor/bootstrap.py and the tags of clients/netbox.py; Registered has what
--     the client knows afterwards.
--   Settings: src/netbox_monitor/settings_store.py, the file and the changes of the configuration;
--     Start has `bootstrap`.
--   Auth: src/netbox_monitor/webui/auth.py.
--   Technitium: `list_zones` of src/netbox_monitor/clients/technitium.py.
--   Sync.Dns: src/netbox_monitor/sync/dns.py; Names has `ptr_name_to_ip`, Collect the tables of names
--     and `run`, Reconcile the writes.
--   Sync.Discovery: src/netbox_monitor/sync/discovery.py; Targets has the addresses to ping.
--   Sync.Certs: src/netbox_monitor/sync/certs.py; Expiry has the days that are left.
--   Sync.Proxmox: src/netbox_monitor/sync/proxmox.py; Guest has one guest, Respect what is left alone.
--   Context: `_resolve_site_ids` and `build_context` of src/netbox_monitor/context.py.
--   Engine: `Engine` of src/netbox_monitor/scheduler.py beside the saves of the settings, as a relation
--     of steps. Scheduler: `_loop` of src/netbox_monitor/scheduler.py. Sync.Modules: `build_modules` of
--     src/netbox_monitor/sync/__init__.py.
--   Safety: what whole operations ask for. Tests: the theorems on a small network.
--
-- Interaction. The modules of Sync reach NetBox only through Netbox and direct reads; the crawl uses
-- Sync.Common for IPs and MAC addresses and Lldp for the drivers. Sync.Modules puts the modules
-- together, and Scheduler runs each of them on its interval.
--
-- Bounds. Sync.Lldp.Crawl.crawl_loop recurses on `max_switches - polled` and then on the queue: a
-- round that polls lowers the first, and any other round takes a target off the queue and adds none,
-- so the `while` loop needs no fuel. The loop over the pages of zones (Technitium.zones_from) runs on
-- fuel, since a server that goes on raising the number of pages keeps it going: fuel for as many
-- rounds as there are pages is enough. The loop of a module (Scheduler.sync_loop) goes on until the
-- service stops, and its rounds are fuel. Every other loop is a `for` over a list.
--
-- Simplified. An attribute of a pynetbox object is a field of Wire.Object.Obj, and `obj.update`
-- answers with the local object as it is afterwards. Log lines have no model, and locks and
-- threads only in Engine: elsewhere every function runs alone. Times are whole seconds, text is
-- compared by its characters, and case folding and white space are those of ASCII. The text of a
-- number, of a time and of a JSON document is a parameter.
--
-- Not modelled: the tasks of asyncio and their cancellation, the validation of a
-- configuration, the ciphers and hashes (parameters with their documented behaviour), the clients of
-- Proxmox and Technitium below their methods, the handlers of the web interface, and the SSH and SNMP
-- drivers. Logging and start-up are input and output.
pub mod Prelude
pub mod Wire
pub mod Json
pub mod Config
pub mod Context
pub mod Technitium
pub mod Transfer
pub mod Net
pub mod Effects
pub mod Engine
pub mod Netbox
pub mod Sync
pub mod Auth
pub mod Bootstrap
pub mod Scheduler
pub mod Settings
pub mod Lldp
pub mod State
pub mod Status
pub mod Safety
pub mod Tests
