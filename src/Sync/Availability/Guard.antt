-- ===== src/Sync/Availability/Guard.antt =====
-- What the availability monitor asks for: no ping into an excluded network, no deletion but that of
-- objects that discovery created, and no write in a dry run.
use netbox_monitor.Prelude.{
  ℕ, String, ◌≡◌, Bool, true, false, not, Option, some, List, [], ◌∷◌, map, mem, All, Dict, arith,
  insert, before, Bool-cases, maybe-holds, if-holds, inl, inr, ◌==◌,
}
use netbox_monitor.Wire.Object.{Endpoint, Obj, Payload, first_ip}
use netbox_monitor.Wire.Request.{Request}
use netbox_monitor.Effects.Only.{Only, only_pure, Only-if, Only-delete, only_rules}
use netbox_monitor.Effects.Run.{Environment, run, All-trace}
use netbox_monitor.Netbox
use netbox_monitor.Netbox.{Client, managed_tag_slug, obj_tag_slugs, is_managed}
use netbox_monitor.Netbox.Methods.{
  update-Only, add_tags-Only, remove_tags-Only, set_custom_fields-Only, filter_tagged-Only,
  journal-Only,
}
use netbox_monitor.Net.Ipv4.{Network}
use netbox_monitor.State.{record_check, set_stale, forget_host, get_host, get_kv, set_kv, delete_kv}
use netbox_monitor.Sync.Availability.{
  Watch, read, monitored_devices, recover, write_last_seen, handle_up, delete_primary, grace_delete,
  maybe_grace_delete, mark_stale, await_first, handle_down, ip_to_device, handle_result, watch,
  parse_ipv4_networks, ip_in_networks,
}

-- A write in a live run only; the deletion of an object that carries the managed tag and the tag of
-- discovery; pings outside the excluded networks; no session with a switch.
abbrev pub IsCareful : Watch → Request → Type 0
IsCareful w (Request.create e d) = w.netbox.dry_run ≡ false
IsCareful w (Request.update o d) = w.netbox.dry_run ≡ false
IsCareful w (Request.delete o) =
    (w.netbox.dry_run ≡ false)
    × (mem managed_tag_slug (obj_tag_slugs o) ≡ true)
    × (mem "src-scan" (obj_tag_slugs o) ≡ true)
IsCareful w (Request.ping ips) =
    All (λ ip. ip_in_networks ip (parse_ipv4_networks w.exclude_prefixes) ≡ false) ips
IsCareful w (Request.collect d h u p k) = ⊥
IsCareful w (Request.collect_macs d h u p k) = ⊥
IsCareful w _ = Unit {0}

module _ (w : Watch) where
  abbrev P : Request → Type 0
  P = IsCareful w

  update-IsCareful : (o : Obj) (d : Payload) → Only P (Netbox.update w.netbox o d)
  update-IsCareful = update-Only w.netbox P (λ _ _ l. l) (λ _ _ l. l) (λ _ _. tt) (λ _ _. tt)

  add_tags-IsCareful : (o : Obj) (s : List String) → Only P (Netbox.add_tags w.netbox o s)
  add_tags-IsCareful = add_tags-Only w.netbox P (λ _ _ l. l) (λ _ _ l. l) (λ _ _. tt) (λ _ _. tt)

  remove_tags-IsCareful : (o : Obj) (s : List String) → Only P (Netbox.remove_tags w.netbox o s)
  remove_tags-IsCareful =
      remove_tags-Only w.netbox P (λ _ _ l. l) (λ _ _ l. l) (λ _ _. tt) (λ _ _. tt)

  set_custom_fields-IsCareful :
      (o : Obj) (d : Dict String) → Only P (Netbox.set_custom_fields w.netbox o d)
  set_custom_fields-IsCareful =
      set_custom_fields-Only w.netbox P (λ _ _ l. l) (λ _ _ l. l) (λ _ _. tt) (λ _ _. tt)

  filter_tagged-IsCareful :
      (e : Endpoint) (t : String) (x : Payload) → Only P (Netbox.filter_tagged w.netbox e t x)
  filter_tagged-IsCareful =
      filter_tagged-Only w.netbox P (λ _ _ l. l) (λ _ _ l. l) (λ _ _. tt) (λ _ _. tt)

  journal-IsCareful : (o : Obj) (x y : String) → Only P (Netbox.journal w.netbox o x y)
  journal-IsCareful = journal-Only w.netbox P (λ _ _ l. l) (λ _ _ l. l) (λ _ _. tt) (λ _ _. tt)

  scanned :
      (o : Obj)
      → not (is_managed o (some "src-scan")) ≡ false
      → (mem managed_tag_slug (obj_tag_slugs o) ≡ true) × (mem "src-scan" (obj_tag_slugs o) ≡ true)
  unfolding is_managed
  scanned o h = (ground arith, ground arith)

  delete-IsCareful : (o : Obj) → Only P (Netbox.delete w.netbox o "src-scan")
  unfolding Netbox.delete
  delete-IsCareful o =
      Only-if _ _ _ (λ _. only_pure _)
        λ m.
          Only-if _ _ _ (λ _. only_pure _)
            λ live. let (managed, scan) = scanned o m in Only-delete o (live, managed, scan)

  read-IsCareful : (s : String) → Only P (read w s)
  unfolding read
  read-IsCareful s = search only_rules

  recover-IsCareful : (o : Obj) → Only P (recover w o)
  unfolding recover
  recover-IsCareful o =
      search
        (
          only_rules, tt, remove_tags-IsCareful, update-IsCareful, set_custom_fields-IsCareful,
          journal-IsCareful,
        )
        depth 8

  write_last_seen-IsCareful : (o : Obj) (k : String) (n : ℕ) → Only P (write_last_seen w o k n)
  unfolding write_last_seen set_kv
  write_last_seen-IsCareful o k n = search (only_rules, tt, set_custom_fields-IsCareful) depth 8

  handle_up-IsCareful : (o : Obj) (k : String) (n : ℕ) → Only P (handle_up w o k n)
  unfolding handle_up get_kv delete_kv
  handle_up-IsCareful o k n =
      search (only_rules, tt, recover-IsCareful, write_last_seen-IsCareful, read-IsCareful) depth 10

  delete_primary-IsCareful : (o : Obj) → Only P (delete_primary w o)
  unfolding delete_primary
  delete_primary-IsCareful o = search (only_rules, tt, delete-IsCareful) depth 10

  maybe_grace_delete-IsCareful :
      (o : Obj) (k : String) (l : Option ℕ) (n : ℕ) → Only P (maybe_grace_delete w o k l n)
  unfolding maybe_grace_delete grace_delete forget_host
  maybe_grace_delete-IsCareful o k l n =
      search (only_rules, delete-IsCareful, delete_primary-IsCareful) depth 10

  mark_stale-IsCareful : (o : Obj) (k : String) → Only P (mark_stale w o k)
  unfolding mark_stale set_stale
  mark_stale-IsCareful o k =
      search (only_rules, add_tags-IsCareful, update-IsCareful, journal-IsCareful) depth 8

  await_first-IsCareful : (o : Obj) (k : String) (n : ℕ) → Only P (await_first w o k n)
  unfolding await_first get_host get_kv set_kv
  await_first-IsCareful o k n =
      search (only_rules, tt, mark_stale-IsCareful, read-IsCareful) depth 10

  handle_down-IsCareful :
      (o : Obj) (k : String) (l : Option ℕ) (n : ℕ) → Only P (handle_down w o k l n)
  unfolding handle_down
  handle_down-IsCareful o k l n =
      search (only_rules, maybe_grace_delete-IsCareful, await_first-IsCareful, mark_stale-IsCareful)

  record_check-IsCareful : (k : String) (b : Bool) (n : Option ℕ) → Only P (record_check k b n)
  unfolding record_check get_host
  record_check-IsCareful k b n = search (only_rules, tt) depth 8

  handle_result-IsCareful :
      (d : Dict Obj) (n : ℕ) (r : String × Bool) → Only P (handle_result w d n r)
  unfolding handle_result
  handle_result-IsCareful d n r =
      search (only_rules, record_check-IsCareful, handle_up-IsCareful, handle_down-IsCareful) depth
        8

  monitored_devices-IsCareful : Only P (monitored_devices w)
  unfolding monitored_devices
  monitored_devices-IsCareful = search (only_rules, filter_tagged-IsCareful)

  abbrev excluded : List Network
  excluded = parse_ipv4_networks w.exclude_prefixes

  abbrev Outside : Dict Obj → Type 0
  Outside d = All (λ ip. ip_in_networks ip excluded ≡ false) (map (λ (ip, _). ip) d)

  insert-Outside :
      (ip : String) (o : Obj) (d : Dict Obj)
      → ip_in_networks ip excluded ≡ false
      → Outside d
      → Outside (insert ip o d)
  unfolding insert
  insert-Outside ip o [] out h = (out, tt)
  insert-Outside ip o ((j, v) ∷ d) out h = elim (Bool-cases (j == ip)) [
    | inl same ↦ rw same (out, h.1)
    | inr other ↦ rw other (h.0, insert-Outside ip o d out h.1)
  ]

  ip_to_device-Outside :
      (ds : List Obj) (d : Dict Obj) → Outside d → Outside (ip_to_device excluded ds d)
  unfolding ip_to_device
  ip_to_device-Outside [] d h = h
  ip_to_device-Outside (o ∷ ds) d h = ip_to_device-Outside ds _ (
      maybe-holds Outside (first_ip o.primary_ip4 o.primary_ip) d _ h λ ip.
        if-holds Outside (ip_in_networks (before b'/' ip.address) excluded) _ _ (λ _. h)
          λ out. insert-Outside (before b'/' ip.address) o d out h)

  pub watch-IsCareful : Only P (watch w)
  unfolding watch
  watch-IsCareful =
      search
        (only_rules, tt, monitored_devices-IsCareful, ip_to_device-Outside, handle_result-IsCareful)
        depth 10

module _ {S : Type 0} (env : Environment S) (s : S) where
  -- Every pass of the monitor pings no address of an excluded network, deletes only objects that
  -- carry both the managed tag and the tag of discovery, and writes nothing in dry-run mode.
  pub watch-trace : (w : Watch) → All (IsCareful w) (run env (watch w) s).trace
  watch-trace w = All-trace env (IsCareful w) _ s (watch-IsCareful w)
