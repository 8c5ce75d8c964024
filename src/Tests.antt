-- ===== src/Tests.antt =====
-- The theorems at concrete inputs, on the network of Tests.World.
mod World
mod Inputs
mod Auth
mod Settings
mod Discovery
mod Modules
mod Engine
mod Transfer
mod Dns
mod Startup
mod Monitor
mod Documents
use netbox_monitor.Prelude.{
  ℕ, String, ◌≡◌, refl, true, false, ◌||◌, Option, none, some, List, [], ◌∷◌, All, mem, maybe,
  lookup,
}
use netbox_monitor.Effects.{pure}
use netbox_monitor.Effects.Only.{Only}
use netbox_monitor.Effects.Run.{run}
use netbox_monitor.Effects.Ensures.{Holds}
use netbox_monitor.Netbox.{is_managed, set_custom_fields}
use netbox_monitor.Netbox.Guard.{Permitted}
use netbox_monitor.Netbox.Tags.{fields_after, set_custom_fields-settles}
use netbox_monitor.Sync.Common.Upsert.{update_ip}
use netbox_monitor.Sync.Common.Host.{ensure_host_device}
use netbox_monitor.Sync.Common.Respect.{Respects, update_ip-unmanaged}
use netbox_monitor.Sync.Cleanup.{delete_managed}
use netbox_monitor.Sync.Cleanup.Guard.{IsRead}
use netbox_monitor.Sync.Cleanup.Counts.{IsConsistent, delete_managed-IsConsistent}
use netbox_monitor.Lldp.Registry.{all_drivers}
use netbox_monitor.Sync.Lldp.Attempts.{plan_attempts}
use netbox_monitor.Sync.Lldp.Attempts.Bounds.{Distinct, plan_attempts-Distinct}
use netbox_monitor.Sync.Lldp.Crawl.{excluded_hosts}
use netbox_monitor.Sync.Lldp.Crawl.Guard.{Avoids}
use netbox_monitor.Safety.{delete_managed-trace}
use netbox_monitor.Sync.Lldp.Run.{lldp_run, lldp_run-trace}
use netbox_monitor.Tests.World.{world, client, host, human_ip}
use netbox_monitor.Tests.Inputs.{runner, entry, ctx, selection, ip_spec, profile}

abbrev no_time : String → Option ℕ
no_time _ = none

plan_attempts-Distinct_example :
    All
      (λ a. mem a.driver all_drivers ≡ true)
      (plan_attempts none (some ("snmp", "lab")) none (profile ∷ profile ∷ [])).attempts
    × Distinct (plan_attempts none (some ("snmp", "lab")) none (profile ∷ profile ∷ [])).attempts
plan_attempts-Distinct_example =
    plan_attempts-Distinct none (some ("snmp", "lab")) none (profile ∷ profile ∷ [])

delete_managed-trace_example :
    All (Permitted client) (run world (delete_managed no_time client selection) tt).trace
delete_managed-trace_example = delete_managed-trace world tt no_time client selection

delete_managed-IsConsistent_example :
    Holds IsConsistent (run world (delete_managed no_time client selection) tt).result
delete_managed-IsConsistent_example = delete_managed-IsConsistent no_time client selection world tt

update_ip-unmanaged_example :
    Only Respects (update_ip client ip_spec (("last_seen", "now") ∷ []) human_ip)
unfolding is_managed
update_ip-unmanaged_example =
    update_ip-unmanaged client ip_spec (("last_seen", "now") ∷ []) human_ip refl

set_custom_fields-settles_example :
    set_custom_fields client
      (record host { custom_fields = fields_after host.custom_fields (("last_seen", "now") ∷ []) })
      (("last_seen", "now") ∷ [])
    ≡ pure (
      false,
      record host { custom_fields = fields_after host.custom_fields (("last_seen", "now") ∷ []) },
    )
unfolding lookup
set_custom_fields-settles_example =
    set_custom_fields-settles client host (("last_seen", "now") ∷ []) (refl, tt)

lldp_run-trace_example :
    All (Avoids client (excluded_hosts ctx)) (run world (lldp_run runner (entry ∷ [])) tt).trace
lldp_run-trace_example = lldp_run-trace world tt runner (entry ∷ [])
