-- ===== src/Sync/Proxmox.antt =====
-- sync/proxmox.py: the cluster, its nodes, and `ProxmoxSync.run`. The methods of `ProxmoxClient` are
-- requests.
pub mod Guest
pub mod Guard
pub mod Respect
use netbox_monitor.Prelude.{
  ℕ, String, Bool, true, false, not, ◌&&◌, Option, none, some, List, [], ◌∷◌, ◌++◌, Dict, lookup,
  insert, map, is_nil, is_some, keep, mem, maybe, leb, ltb, ◌=?◌, ◌-◌, ◌<>◌, ◌==◌, if◌then◌else◌,
  length, non_empty,
}
use netbox_monitor.Wire.Object.{Endpoint, Obj, Payload, null, text, num, nums, fields}
use netbox_monitor.Wire.Proxmox.{Node, Kind, qemu, lxc}
use netbox_monitor.Wire.Proxmox
use netbox_monitor.Wire.Request.{Request}
use netbox_monitor.Effects.{Prog, pure, ask, try_catch, ◌>>=◌, ◌>>◌, for_each}
use netbox_monitor.Netbox
use netbox_monitor.Netbox.{
  Client, managed_tag_slug, stale_tag_slug, tag_ids, obj_tag_slugs, is_managed, ensure, add_tags,
  filter_tagged, journal,
}
use netbox_monitor.Status.{record_status}
use netbox_monitor.Sync.Common.Host.{or_null, obj_id}
use netbox_monitor.Sync.Proxmox.Guest.{Setup, proxmox_source, guest_key, sync_guest}

pub record Instance : Type 0 where
  pub host : String

pub record PveSite : Type 0 where
  pub id : String
  pub netbox_site_id : Option ℕ
  pub instances : List Instance
  pub enabled : Bool

abbrev pub is_online : Node → Bool
is_online n = maybe n.status false (λ s. s == "online")

module _ (ctx : Setup) where
  abbrev pub node_updates : ℕ → String → String → Obj → Payload
  node_updates cluster status now device =
      (if is_some device.cluster then [] else ("cluster", num cluster) ∷ [])
      ++ (if device.status == status
          then []
          else ("status", text status)
            ∷ ("custom_fields", fields (insert "last_seen" now device.custom_fields))
            ∷ [])

  unfoldable pub update_node : ℕ → String → Obj → Prog Obj
  update_node cluster status device = do
    now ← ask Request.now_iso
    let updates = node_updates cluster status now device
    if is_nil updates
        then pure device
        else do (changed, o) ← Netbox.update ctx.netbox device updates; pure o

  unfoldable pub sync_node : Node → Obj → Option Obj → Option ℕ → Prog (Option Obj)
  sync_node node cluster node_type site_id = maybe site_id (pure none) (λ site. do
    let status = if is_online node then "active" else "offline"
    tags ← tag_ids ctx.netbox (managed_tag_slug ∷ proxmox_source ∷ [])
    now ← ask Request.now_iso
    device ← ensure ctx.netbox Endpoint.devices (("name", text node.node) ∷ []) (
        ("role", or_null (lookup "role_hypervisor" ctx.netbox.refs))
        ∷ ("device_type", or_null (obj_id node_type))
        ∷ ("site", num site)
        ∷ ("cluster", num cluster.id)
        ∷ ("status", text status)
        ∷ ("tags", nums tags)
        ∷ ("custom_fields", fields (("last_seen", now) ∷ []))
        ∷ [])
    maybe device (pure none) (λ d.
        if is_managed d (some proxmox_source)
        then (do o ← update_node cluster.id status d; pure (some o))
        else pure (some d)))

  unfoldable pub mark_gone : List String → Obj → Prog (Unit {0})
  mark_gone seen vm =
      if mem vm.name seen
      then pure tt
      else if not (is_managed vm (some proxmox_source))
      then pure tt
      else if mem stale_tag_slug (obj_tag_slugs vm)
      then pure tt
      else do
        (tagged, v) ← add_tags ctx.netbox vm (stale_tag_slug ∷ [])
        (changed, o) ← Netbox.update ctx.netbox v (("status", text "offline") ∷ [])
        journal ctx.netbox o "VM no longer exists in Proxmox; tagged stale" "warning"

  unfoldable pub mark_vanished : Obj → List String → Prog (Unit {0})
  mark_vanished cluster seen = do
    existing ←
        filter_tagged ctx.netbox Endpoint.virtual_machines proxmox_source
          (("cluster_id", num cluster.id) ∷ [])
    for_each existing tt (λ vm _. mark_gone seen vm)

  -- the guests of one kind on a node, with `seen_vm_names`
  unfoldable pub sync_guests :
      String → Obj → Option Obj → String → Kind → List String → Prog (List String)
  sync_guests host cluster device node kind seen = do
    guests ← ask (Request.pve_guests host node kind)
    for_each guests seen (λ g names. do
      sync_guest ctx host cluster device node kind g
      pure (guest_key ctx g ∷ names))

  unfoldable pub sync_node_guests :
      String → Obj → Dict Obj → Node → List String → Prog (List String)
  sync_node_guests host cluster devices node seen = if not (is_online node) then pure seen else do
    vms ← sync_guests host cluster (lookup node.node devices) node.node qemu seen
    sync_guests host cluster (lookup node.node devices) node.node lxc vms

  unfoldable pub sync_details : Instance → Option ℕ → Obj → Prog (Unit {0})
  sync_details instance site_id cluster = do
    manufacturer ←
        ensure ctx.netbox Endpoint.manufacturers (("slug", text "proxmox") ∷ [])
          (("name", text "Proxmox") ∷ [])
    node_type ← ensure ctx.netbox Endpoint.device_types (("slug", text "pve-node") ∷ []) (
        ("manufacturer", or_null (obj_id manufacturer))
        ∷ ("model", text "PVE node")
        ∷ ("u_height", num 0)
        ∷ [])
    nodes ← ask (Request.pve_nodes instance.host)
    devices ← for_each nodes [] (λ node found. do
      device ← sync_node node cluster node_type site_id
      pure (maybe device found (λ d. insert node.node d found)))
    again ← ask (Request.pve_nodes instance.host)
    seen ←
        for_each again [] (λ node names. sync_node_guests instance.host cluster devices node names)
    mark_vanished cluster seen

  abbrev pub cluster_scope : Option ℕ → Payload
  cluster_scope site_id =
      maybe site_id [] (λ site. ("scope_type", text "dcim.site") ∷ ("scope_id", num site) ∷ [])

  unfoldable pub sync_instance : Option ℕ → Instance → Prog (Unit {0})
  sync_instance site_id instance = do
    name ← ask (Request.pve_cluster_name instance.host)
    cluster_type ←
        ensure ctx.netbox Endpoint.cluster_types (("slug", text "proxmox-ve") ∷ [])
          (("name", text "Proxmox VE") ∷ [])
    tags ← tag_ids ctx.netbox (managed_tag_slug ∷ proxmox_source ∷ [])
    cluster ← ensure ctx.netbox Endpoint.clusters (("name", text name) ∷ []) (
        ("type", or_null (obj_id cluster_type))
        ∷ ("status", text "active")
        ∷ ("tags", nums tags)
        ∷ cluster_scope site_id)
    maybe cluster (pure tt) (λ c. sync_details instance site_id c)

  -- `"; ".join(errors)`
  abbrev pub join_errors : List String → String
  join_errors [] = ""
  join_errors (e ∷ []) = e
  join_errors (e ∷ es) = e <> "; " <> join_errors es

  unfoldable pub try_instance : Option ℕ → Instance → List String → Prog (List String)
  try_instance site_id instance errors =
      try_catch (do sync_instance site_id instance; pure errors)
        (λ e. pure (errors ++ ((instance.host <> ": " <> e.text) ∷ [])))

  unfoldable pub sync_pve_site : PveSite → Prog (Unit {0})
  sync_pve_site site = do
    started ← ask Request.monotonic
    errors ←
        for_each site.instances []
          (λ instance found. try_instance site.netbox_site_id instance found)
    ended ← ask Request.monotonic
    record_status ctx.dump "proxmox" site.id (is_nil errors)
        (if non_empty (join_errors errors)
          then join_errors errors
          else ctx.show_num (length site.instances) <> " instance(s) synced")
        (ended - started)

  unfoldable pub proxmox_run : List PveSite → Prog (Unit {0})
  proxmox_run all_sites =
      for_each (keep (λ s. not (is_nil s.instances) && s.enabled) all_sites) tt
        (λ site _. sync_pve_site site)
