-- ===== src/Sync/Availability.antt =====
-- sync/availability.py: hosts that stay unreachable are tagged stale, brought back when they answer,
-- and deleted after a grace period. Times are whole seconds; a comparison of a difference with a
-- bound is written as one of sums.
pub mod Guard
pub mod Stale
use netbox_monitor.Prelude.{
  ℕ, ◌+◌, ◌*◌, String, Bool, true, false, not, ◌||◌, Option, none, some, List, [], ◌∷◌, map, Dict,
  lookup, insert, keep, any, is_nil, is_some, mem, ltb, ◌=?◌, if◌then◌else◌, maybe, truthy_num,
  before, ◌<>◌,
}
use netbox_monitor.Wire.Object.{Endpoint, Obj, IpRef, first_ip, text, num}
use netbox_monitor.Wire.Request.{Request, Exn}
use netbox_monitor.Effects.{Prog, pure, raise, ask, ◌>>=◌, ◌>>◌, for_each}
use netbox_monitor.Net.Ipv4.{Network, parse_address, parse_network, contains}
use netbox_monitor.Netbox
use netbox_monitor.Netbox.{
  Client, managed_tag_slug, stale_tag_slug, obj_tag_slugs, is_managed, add_tags, remove_tags,
  set_custom_fields, filter_tagged, journal, key_error,
}
use netbox_monitor.State.{record_check, set_stale, forget_host, get_host, get_kv, set_kv, delete_kv}
use netbox_monitor.Lldp.Registry.{value_error}

-- `parse_ipv4_networks` of sync/common.py
unfoldable pub parse_ipv4_networks : List String → List Network
parse_ipv4_networks [] = []
parse_ipv4_networks (p ∷ ps) =
    let rest = parse_ipv4_networks ps in maybe (parse_network p) rest (λ n. n ∷ rest)

-- `ip_in_networks` of sync/common.py
unfoldable pub ip_in_networks : String → List Network → Bool
ip_in_networks ip networks =
    if is_nil networks
    then false
    else maybe (parse_address ip) false (λ a. any (λ n. contains n a) networks)

-- What the module reads of `ctx`. `show_num` is `str` of an integer; `show_time` is `str` of a time,
-- and `read_time` is `float` of a text, nothing where it raises.
pub record Watch : Type 0 where
  pub netbox : Client
  pub stale_after : ℕ
  pub grace_days : ℕ
  pub exclude_prefixes : List String  -- of all sites
  pub show_num : ℕ → String
  pub show_time : ℕ → String
  pub read_time : String → Option ℕ

abbrev pub monitored_sources : List String
monitored_sources = "src-scan" ∷ "src-dhcp" ∷ []

abbrev last_seen_write_interval : ℕ
last_seen_write_interval = 900

-- `float(text)`
unfoldable pub read : Watch → String → Prog ℕ
read w s = maybe (w.read_time s) (raise (value_error s)) pure

unfoldable pub monitored_devices : Watch → Prog (List Obj)
monitored_devices w = do
  devices ← filter_tagged w.netbox Endpoint.devices managed_tag_slug []
  pure (keep (λ d. any (λ s. mem s monitored_sources) (obj_tag_slugs d)) devices)

-- `recover()`
unfoldable pub recover : Watch → Obj → Prog (Unit {0})
recover w device = do
  (_, d1) ← remove_tags w.netbox device (stale_tag_slug ∷ [])
  (_, d2) ← Netbox.update w.netbox d1 (("status", text "active") ∷ [])
  now ← ask Request.now_iso
  (_, d3) ← set_custom_fields w.netbox d2 (("last_seen", now) ∷ [])
  journal w.netbox d3 "Host reachable again; stale tag removed" "info"

-- The write of `last_seen` and of the time of that write.
unfoldable pub write_last_seen : Watch → Obj → String → ℕ → Prog (Unit {0})
write_last_seen w device key now = do
  iso ← ask Request.now_iso
  set_custom_fields w.netbox device (("last_seen", iso) ∷ [])
  set_kv ("lastseen-write:" <> key) (w.show_time now)

unfoldable pub handle_up : Watch → Obj → String → ℕ → Prog (Unit {0})
handle_up w device key now = do
  delete_kv ("firstdown:" <> key)
  if mem stale_tag_slug (obj_tag_slugs device) then recover w device else do
    last_write ← get_kv ("lastseen-write:" <> key)
    maybe last_write (write_last_seen w device key now) (λ s. read w s >>= λ t.
        if ltb (t + last_seen_write_interval) now
        then write_last_seen w device key now
        else pure tt)

-- The deletion of one object that was looked up for `nb.delete(…, "src-scan")`
unfoldable pub delete_primary : Watch → Obj → Prog (Unit {0})
delete_primary w device = maybe device.primary_ip4 (pure tt) (λ ip. do
  found ← ask (Request.get Endpoint.ip_addresses (("id", num ip.id) ∷ []))
  if maybe found false (λ o. is_managed o (some "src-scan"))
      then (do
        again ← ask (Request.get Endpoint.ip_addresses (("id", num ip.id) ∷ []))
        maybe again (pure tt) (λ o. Netbox.delete w.netbox o "src-scan" >>= λ _. pure tt))
      else pure tt)

unfoldable pub grace_delete : Watch → Obj → String → Prog (Unit {0})
grace_delete w device key = do
  delete_primary w device
  Netbox.delete w.netbox device "src-scan"
  forget_host key

unfoldable pub maybe_grace_delete : Watch → Obj → String → Option ℕ → ℕ → Prog (Unit {0})
maybe_grace_delete w device key last_seen now =
    if w.grace_days =? 0
    then pure tt
    else maybe last_seen (pure tt) (λ seen.
      if not (mem "src-scan" (obj_tag_slugs device))
      then pure tt
      else if ltb now (seen + w.grace_days * 86400)
      then pure tt
      else grace_delete w device key)

-- `mark_stale()` and the flag in the database
unfoldable pub mark_stale : Watch → Obj → String → Prog (Unit {0})
mark_stale w device key = do
  (_, d1) ← add_tags w.netbox device (stale_tag_slug ∷ [])
  (_, d2) ← Netbox.update w.netbox d1 (("status", text "offline") ∷ [])
  journal w.netbox d2
      ("Unreachable for over " <> w.show_num w.stale_after <> "s; tagged stale and set offline")
      "warning"
  set_stale key true

-- A host that was never seen up: it waits for `stale_after` from the first failure.
unfoldable pub await_first : Watch → Obj → String → ℕ → Prog (Unit {0})
await_first w device key now = do
  state ← get_host key
  marker ← get_kv ("firstdown:" <> key)
  maybe marker
      (set_kv ("firstdown:" <> key) (
        w.show_time
          (maybe (truthy_num (maybe state (some now) (λ h. h.last_checked))) now (λ t. t))))
      (λ s. read w s >>= λ first.
        if ltb now (first + w.stale_after) then pure tt else mark_stale w device key)

unfoldable pub handle_down : Watch → Obj → String → Option ℕ → ℕ → Prog (Unit {0})
handle_down w device key last_seen now =
    if mem stale_tag_slug (obj_tag_slugs device)
    then maybe_grace_delete w device key last_seen now
    else maybe (truthy_num last_seen) (await_first w device key now)
        (λ seen. if ltb now (seen + w.stale_after) then pure tt else mark_stale w device key)

-- `ip_to_device`: the devices that have a primary IP outside the excluded networks, by that IP.
unfoldable pub ip_to_device : List Network → List Obj → Dict Obj → Dict Obj
ip_to_device excluded [] found = found
ip_to_device excluded (d ∷ ds) found = ip_to_device excluded ds (
    maybe (first_ip d.primary_ip4 d.primary_ip) found (λ ip.
      if ip_in_networks (before b'/' ip.address) excluded
      then found
      else insert (before b'/' ip.address) d found))

abbrev pub device_key : Watch → Obj → String
device_key w d = "device:" <> w.show_num d.id

-- One round of the loop over the results of the pings.
unfoldable pub handle_result : Watch → Dict Obj → ℕ → String × Bool → Prog (Unit {0})
handle_result w devices now (address, up) =
    maybe (lookup address devices) (raise (key_error address)) (λ d. do
      state ← record_check (device_key w d) up (some now)
      if up
          then handle_up w d (device_key w d) now
          else handle_down w d (device_key w d) state.last_seen now)

unfoldable pub watch : Watch → Prog (Unit {0})
watch w = do
  devices ← monitored_devices w
  let by_ip = ip_to_device (parse_ipv4_networks w.exclude_prefixes) devices []
  if is_nil by_ip then pure tt else do
    results ← ask (Request.ping (map (λ (ip, _). ip) by_ip))
    now ← ask Request.time
    for_each results tt (λ r _. handle_result w by_ip now r)
