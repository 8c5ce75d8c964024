-- ===== src/Sync/Cleanup.antt =====
-- sync/cleanup.py: the inventory and the bulk deletion of managed objects.
-- Times are whole seconds. `timestamp` stands for `strptime(raw, …).timestamp()`, which depends on
-- the host's time zone; it is nothing where that raises.
pub mod Guard
pub mod Counts
pub mod Inventory
use netbox_monitor.Prelude.{
  ℕ, ◌+◌, ◌*◌, String, Bool, true, false, not, ◌&&◌, ◌||◌, Option, none, some, List, [], ◌∷◌, map,
  Dict, lookup, insert, ◌==◌, leb, if◌then◌else◌, maybe, find, is_some, mem, mem_num, sum, truthy,
  starts_with, take_text,
}
use netbox_monitor.Wire.Object.{Endpoint, Obj, SiteRef, text, num}
use netbox_monitor.Wire.Request.{Request}
use netbox_monitor.Effects.{Prog, pure, ask, ◌>>=◌, for_each}
use netbox_monitor.Netbox.{
  Client, managed_tag_slug, stale_tag_slug, obj_tag_slugs, delete_if_managed, filter_tagged,
}

abbrev pub no_site : String
no_site = "—"

unfoldable pub source_of : Obj → String
source_of obj = maybe (find (λ slug. starts_with slug "src-") (obj_tag_slugs obj)) "?" (λ s. s)

abbrev site_slug_or_none : Option SiteRef → String
site_slug_or_none site = maybe site no_site (λ s. maybe (truthy (some s.slug)) no_site (λ t. t))

abbrev pub device_site_slug : Obj → String
device_site_slug obj = site_slug_or_none obj.site

abbrev pub cluster_site_slug : Obj → String
cluster_site_slug obj = maybe obj.device no_site (λ _. site_slug_or_none obj.device_site)

-- The id of the assigned object's device, or else of its virtual machine.
abbrev pub assigned_parent : Obj → Option ℕ
assigned_parent obj = maybe obj.assigned_device obj.assigned_vm some

-- The parent, a device or a virtual machine, is looked up among the devices.
unfoldable pub ip_site_slug : Obj → Prog String
ip_site_slug obj = maybe (assigned_parent obj) (pure "unassigned") (λ parent. do
  full ← ask (Request.get Endpoint.devices (("id", num parent) ∷ []))
  pure (maybe full "unassigned" device_site_slug))

-- The keyword arguments of `delete_managed`.
pub record Selection : Type 0 where
  pub object_types : List String
  pub site_slug : Option String
  pub source : Option String
  pub only_stale : Bool
  pub not_seen_days : Option ℕ
  pub dry_run : Bool

-- `result.counts`, and the ids of the IPs that have been counted.
pub record Progress : Type 0 where
  pub deleted_ip_ids : List ℕ
  pub counts : Dict ℕ

abbrev pub count_of : String → Dict ℕ → ℕ
count_of type counts = maybe (lookup type counts) 0 (λ n. n)

-- `result.counts[type] = result.counts.get(type, 0) + 1`
unfoldable pub bump_count : String → Dict ℕ → Dict ℕ
bump_count type counts = insert type (count_of type counts + 1) counts

-- `CleanupResult.total`
unfoldable pub total : Progress → ℕ
total p = sum (map (λ (_, n). n) p.counts)

module _ (timestamp : String → Option ℕ) where
  -- `_last_seen_age_days(obj, now)` is a number, and at least `days`
  unfoldable pub seen_days_ago : Obj → ℕ → ℕ → Bool
  seen_days_ago obj now days =
      maybe (truthy (lookup "last_seen" obj.custom_fields)) false
        (λ raw. maybe (timestamp (take_text 19 raw)) false (λ ts. leb (ts + days * 86400) now))

  -- `_matches`, with the site filter as an argument
  unfoldable pub matches : Selection → Option String → Obj → String → ℕ → Bool
  matches sel site_slug obj obj_site now =
      if maybe (truthy site_slug) false (λ s. not (obj_site == s))
      then false
      else if maybe (truthy sel.source) false (λ s. not (mem s (obj_tag_slugs obj)))
      then false
      else if sel.only_stale && not (mem stale_tag_slug (obj_tag_slugs obj))
      then false
      else maybe sel.not_seen_days true (λ days. seen_days_ago obj now days)

  module _ (c : Client) (sel : Selection) where
    abbrev pub effective_dry : Bool
    effective_dry = sel.dry_run || c.dry_run

    unfoldable pub do_delete : Obj → Prog Bool
    do_delete obj = if effective_dry then pure true else delete_if_managed c obj

    abbrev pub ip_type : String
    ip_type = "ip_addresses"

    unfoldable pub delete_ip : Obj → Progress → Prog Progress
    delete_ip ip p =
        if mem_num ip.id p.deleted_ip_ids || not (mem managed_tag_slug (obj_tag_slugs ip))
        then pure p
        else do
          done ← do_delete ip
          pure (
              if done
              then record {
                deleted_ip_ids = ip.id ∷ p.deleted_ip_ids;
                counts = bump_count ip_type p.counts;
              }
              else p)

    unfoldable pub delete_parent_ips : ℕ → String → Progress → Prog Progress
    delete_parent_ips parent_id criterion p = do
      ips ← ask (Request.filter Endpoint.ip_addresses ((criterion, num parent_id) ∷ []))
      for_each ips p delete_ip

    -- the deletion of one object that is counted under `type`
    unfoldable pub delete_counted : String → Obj → Progress → Prog Progress
    delete_counted type obj p = do
      done ← do_delete obj
      pure (if done then record p { counts = bump_count type p.counts } else p)

    -- The body of the loops over devices and over virtual machines.
    unfoldable pub delete_parent :
        String → String → (Obj → String) → ℕ → Obj → Progress → Prog Progress
    delete_parent type criterion site_of now obj p =
        if matches sel sel.site_slug obj (site_of obj) now
        then (do p' ← delete_parent_ips obj.id criterion p; delete_counted type obj p')
        else pure p

    unfoldable pub delete_remaining_ip : ℕ → Obj → Progress → Prog Progress
    delete_remaining_ip now obj p = do
      site ← ip_site_slug obj
      if matches sel sel.site_slug obj site now then delete_ip obj p else pure p

    unfoldable pub delete_cable : ℕ → Obj → Progress → Prog Progress
    delete_cable now obj p =
        if matches sel none obj no_site now then delete_counted "cables" obj p else pure p

    -- One `if type in object_types:` block: the tagged objects of an endpoint, each in turn.
    abbrev pub pass : Bool → Endpoint → (Obj → Progress → Prog Progress) → Progress → Prog Progress
    pass wanted endpoint body p =
        if wanted
        then (do objs ← filter_tagged c endpoint managed_tag_slug []; for_each objs p body)
        else pure p

    unfoldable pub delete_managed : Prog Progress
    delete_managed = do
      now ← ask Request.time
      p ←
          pass (mem "devices" sel.object_types) Endpoint.devices
            (delete_parent "devices" "device_id" device_site_slug now)
            (record { deleted_ip_ids = []; counts = [] })
      q ←
          pass (mem "virtual_machines" sel.object_types) Endpoint.virtual_machines
            (delete_parent "virtual_machines" "virtual_machine_id" cluster_site_slug now) p
      r ← pass (mem ip_type sel.object_types) Endpoint.ip_addresses (delete_remaining_ip now) q
      pass (mem "cables" sel.object_types && not (is_some (truthy sel.site_slug))) Endpoint.cables
          (delete_cable now) r
