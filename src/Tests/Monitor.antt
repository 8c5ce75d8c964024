-- ===== src/Tests/Monitor.antt =====
-- The theorems on the state database, the availability monitor, the DHCP sync, the merge of duplicates
-- and the inventory at concrete inputs.
use netbox_monitor.Prelude.{
  ℕ, lookup, none, ◌≡◌, refl, Bool, true, false, some, List, [], ◌∷◌, All, arith,
}
use netbox_monitor.Wire.Request.{Request, Reply, Answer, failed, Exn, ExnClass}
use netbox_monitor.Effects.Run.{run}
use netbox_monitor.Effects.Ensures.{Holds}
use netbox_monitor.State.{Db, sqlite}
use netbox_monitor.State.Laws.{record_checks, last_up, seen_at, record_checks-last_up}
use netbox_monitor.Sync.Availability.{handle_down, watch}
use netbox_monitor.Sync.Availability.Guard.{IsCareful, watch-trace}
use netbox_monitor.Sync.Availability.Stale.{
  IsDue, handle_down-trace, failed_checks, failed_checks-IsRead,
}
use netbox_monitor.Sync.Cleanup.Guard.{IsRead}
use netbox_monitor.Sync.Cleanup.Inventory.{inventory}
use netbox_monitor.Sync.Cleanup.Inventory.Groups.{IsGrouped, inventory-IsGrouped}
use netbox_monitor.Netbox.{is_managed, obj_tag_slugs}
use netbox_monitor.Sync.Lldp.Merge.{merge_direction, keep_polled}
use netbox_monitor.Sync.Lldp.Merge.Ownership.{IsOwned, merge_direction-IsOwned}
use netbox_monitor.Sync.Dhcp.Run.{delete_expired, reconcile_site}
use netbox_monitor.Sync.Dhcp.Guard.{OnlyGone, delete_expired-trace}
use netbox_monitor.Sync.Dhcp.Kept.{IsListed, reconcile_site-IsListed}
use netbox_monitor.Net.Ipv4.{network_at}
use netbox_monitor.Tests.World.{world, client, host, human_device, scope, lease}
use netbox_monitor.Tests.Inputs.{watch_setup, dhcp_setup, dhcp_site, no_hosts}

abbrev offline : Exn
offline = record { class = ExnClass.os_error; type_name = "OSError"; text = "offline" }

abbrev nothing_else : (r : Request) → Db → Answer (Reply r) × Db
nothing_else r db = (failed offline, db)

abbrev checks : List (ℕ × Bool)
checks = (100, true) ∷ (160, false) ∷ []

record_checks-last_up_example :
    seen_at "device:8" (run (sqlite nothing_else) (record_checks "device:8" checks) no_hosts).final
    ≡ last_up checks (seen_at "device:8" no_hosts)
record_checks-last_up_example =
    record_checks-last_up nothing_else "device:8" checks no_hosts (refl, (refl, tt))

watch-trace_example : All (IsCareful watch_setup) (run world (watch watch_setup) tt).trace
watch-trace_example = watch-trace world tt watch_setup

handle_down-trace_example :
    All
      (IsDue watch_setup host 100 1000000)
      (run world (handle_down watch_setup host "device:8" (some 100) 1000000) tt).trace
handle_down-trace_example =
    handle_down-trace world tt watch_setup host 100 1000000 "device:8" (omega arith)

delete_expired-trace_example :
    All
      (OnlyGone client (record { active = []; reserved = [] }) (network_at 167772160 24 ∷ []))
      (run world
        (delete_expired dhcp_setup
          (record { active = []; reserved = [] })
          (network_at 167772160 24 ∷ []))
        tt).trace
delete_expired-trace_example =
    delete_expired-trace world tt dhcp_setup (record { active = []; reserved = [] })
      (network_at 167772160 24 ∷ [])

reconcile_site-IsListed_example :
    Holds
      (λ ls. All (IsListed ls) (lease ∷ []))
      (run world (reconcile_site dhcp_setup dhcp_site [] (scope ∷ []) (lease ∷ [])) tt).result
reconcile_site-IsListed_example =
    reconcile_site-IsListed dhcp_setup dhcp_site [] (scope ∷ []) (lease ∷ []) world tt

failed_checks-IsRead_example :
    All IsRead
      (run
        (sqlite nothing_else)
        (failed_checks watch_setup (("10.0.0.8", host) ∷ []) "10.0.0.8" (100 ∷ 200 ∷ []))
        no_hosts).trace
unfolding lookup obj_tag_slugs
failed_checks-IsRead_example =
    failed_checks-IsRead nothing_else watch_setup host (("10.0.0.8", host) ∷ []) "10.0.0.8"
      (100 ∷ 200 ∷ []) no_hosts refl refl (refl, (refl, tt)) refl

merge_direction-IsOwned_example : IsOwned human_device host (keep_polled human_device host)
unfolding merge_direction is_managed
merge_direction-IsOwned_example =
    merge_direction-IsOwned human_device host (keep_polled human_device host) refl

inventory-IsGrouped_example : Holds IsGrouped (run world (inventory (λ _. none) client) tt).result
inventory-IsGrouped_example = inventory-IsGrouped (λ _. none) client world tt
