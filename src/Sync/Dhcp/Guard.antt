-- ===== src/Sync/Dhcp/Guard.antt =====
-- What the DHCP sync asks for, and which IPs `_delete_expired` deletes.
use netbox_monitor.Prelude.{
  ℕ, String, ◌≡◌, ◌≢◌, Bool, true, false, Option, some, List, [], mem, any, All, Dict, before,
  maybe, arith, Option-cases, inl, inr, ◌==◌,
}
use text.Mathlib.TextPositions.{eq_refl}
use netbox_monitor.Wire.Object.{Endpoint, Obj}
use netbox_monitor.Wire.Dhcp.{Scope, Lease}
use netbox_monitor.Wire.Request.{Request}
use netbox_monitor.Effects.Only.{Only, only_pure, Only-if, Only-delete, only_rules}
use netbox_monitor.Effects.Run.{Environment, run, All-trace}
use netbox_monitor.Netbox
use netbox_monitor.Netbox.{Client, managed_tag_slug, obj_tag_slugs, is_managed}
use netbox_monitor.Netbox.Guard.{Permitted, client_rules}
use netbox_monitor.Net.Ipv4.{Network, parse_address, contains}
use netbox_monitor.State.{set_kv}
use netbox_monitor.Status.{record_status}
use netbox_monitor.Sync.Common.Lookup.{Match, interface_type}
use netbox_monitor.Sync.Common.Guard.{common_rules}
use netbox_monitor.Sync.Dhcp.Lease.{
  Setup, DhcpSite, Leases, dhcp_source, drop_duplicate, move_to_vm, attach_reservation_to_vm,
  sync_reserved, sync_dynamic, sync_lease,
}
use netbox_monitor.Sync.Dhcp.Run.{
  Totals, annotate_prefix, reconcile_site, is_expired, delete_expired, report, fetch_site,
  sync_site, dhcp_run,
}

module _ (ctx : Setup) where
  abbrev P : Request → Type 0
  P = Permitted ctx.netbox

  drop_duplicate-Permitted : (n : String) → Only P (drop_duplicate ctx n)
  unfolding drop_duplicate
  drop_duplicate-Permitted n = search client_rules depth 8

  move_to_vm-Permitted : (m : Match) (a : String) → Only P (move_to_vm ctx m a)
  unfolding move_to_vm
  move_to_vm-Permitted m a = search common_rules depth 8

  attach-Permitted :
      (m : Match) (a h s : String) (mac v : Option String)
      → Only P (attach_reservation_to_vm ctx m a h s mac v)
  unfolding attach_reservation_to_vm
  attach-Permitted m a h s mac v =
      search (common_rules, drop_duplicate-Permitted, move_to_vm-Permitted) depth 8

  sync_reserved-Permitted :
      (i : DhcpSite) (a h s : String) (mac v : Option String)
      → Only P (sync_reserved ctx i a h s mac v)
  unfolding sync_reserved
  sync_reserved-Permitted i a h s mac v = search (common_rules, attach-Permitted) depth 8

  sync_dynamic-Permitted :
      (a h s : String) (mac v : Option String) → Only P (sync_dynamic ctx a h s mac v)
  unfolding sync_dynamic
  sync_dynamic-Permitted a h s mac v = search common_rules depth 8

  sync_lease-Permitted :
      (i : DhcpSite) (d : Dict String) (l : Lease) (ls : Leases) → Only P (sync_lease ctx i d l ls)
  unfolding sync_lease
  sync_lease-Permitted i d l ls =
      search (only_rules, sync_reserved-Permitted, sync_dynamic-Permitted) depth 8

  annotate_prefix-Permitted : (s : Scope) → Only P (annotate_prefix ctx s)
  unfolding annotate_prefix
  annotate_prefix-Permitted s = search client_rules depth 8

  reconcile_site-Permitted :
      (i : DhcpSite) (d : Dict String) (s : List Scope) (l : List Lease)
      → Only P (reconcile_site ctx i d s l)
  unfolding reconcile_site
  reconcile_site-Permitted i d s l =
      search (only_rules, annotate_prefix-Permitted, sync_lease-Permitted) depth 8

  delete_expired-Permitted : (ls : Leases) (ns : List Network) → Only P (delete_expired ctx ls ns)
  unfolding delete_expired
  delete_expired-Permitted ls ns = search client_rules depth 8

  report-Permitted : (i : DhcpSite) (b : Bool) (m : String) (n : ℕ) → Only P (report ctx i b m n)
  unfolding report record_status set_kv
  report-Permitted i b m n = search (only_rules, tt) depth 8

  fetch_site-Permitted : (i : DhcpSite) (d : Dict String) → Only P (fetch_site ctx i d)
  unfolding fetch_site
  fetch_site-Permitted i d = search (only_rules, tt, reconcile_site-Permitted) depth 8

  sync_site-Permitted : (d : Dict String) (i : DhcpSite) (t : Totals) → Only P (sync_site ctx d i t)
  unfolding sync_site
  sync_site-Permitted d i t =
      search (only_rules, tt, fetch_site-Permitted, report-Permitted) depth 8

  pub dhcp_run-Permitted : (sites : List DhcpSite) → Only P (dhcp_run ctx sites)
  unfolding dhcp_run
  dhcp_run-Permitted sites =
      search (only_rules, tt, sync_site-Permitted, delete_expired-Permitted) depth 8

-- An IP that no lease has: it is inside a network that was fetched, and hangs on no device.
pub record IsGone (ls : Leases) (networks : List Network) (o : Obj) : Type 0 where
  pub not_active : mem (before b'/' o.address) ls.active ≡ false
  pub not_reserved : mem (before b'/' o.address) ls.reserved ≡ false
  pub not_device : o.assigned_object_type ≢ some interface_type
  pub inside :
      (a : ℕ) × (parse_address (before b'/' o.address) ≡ some a)
      × (any (λ n. contains n a) networks ≡ true)

abbrev pub OnlyGone : Client → Leases → List Network → Request → Type 0
OnlyGone c ls networks (Request.create e d) = ⊥
OnlyGone c ls networks (Request.update o d) = ⊥
OnlyGone c ls networks (Request.delete o) =
    (c.dry_run ≡ false) × (is_managed o (some dhcp_source) ≡ true) × IsGone ls networks o
OnlyGone c ls networks r = Unit {0}

device_differs :
    (t : Option String) → maybe t false (λ u. u == interface_type) ≡ false → t ≢ some interface_type
device_differs t h p = ground (arith, h, p, eq_refl interface_type)

module _ (ctx : Setup) (ls : Leases) (networks : List Network) where
  is_expired-IsGone : (o : Obj) → is_expired ls networks o ≡ true → IsGone ls networks o
  unfolding is_expired
  is_expired-IsGone o h = elim (Option-cases (parse_address (before b'/' o.address))) [
    | inl p ↦ absurd (ground (arith, h, p))
    | inr (a, p) ↦ record {
      not_active = ground arith;
      not_reserved = ground arith;
      not_device = device_differs o.assigned_object_type (ground arith);
      inside = (a, p, ground (arith, h, p));
    }
  ]

  delete-OnlyGone :
      (o : Obj)
      → is_expired ls networks o ≡ true
      → Only (OnlyGone ctx.netbox ls networks) (Netbox.delete ctx.netbox o dhcp_source)
  unfolding Netbox.delete
  delete-OnlyGone o h =
      Only-if _ _ _ (λ _. only_pure false)
        λ m.
          Only-if _ _ _ (λ _. only_pure false)
            λ live. Only-delete o (live, ground (arith, m), is_expired-IsGone o h)

  filtered :
      Only
        (OnlyGone ctx.netbox ls networks)
        (Netbox.filter_tagged ctx.netbox Endpoint.ip_addresses dhcp_source [])
  unfolding Netbox.filter_tagged
  filtered = search (only_rules, tt)

  delete_expired-OnlyGone : Only (OnlyGone ctx.netbox ls networks) (delete_expired ctx ls networks)
  unfolding delete_expired
  delete_expired-OnlyGone = search (only_rules, filtered, delete-OnlyGone) depth 8

module _ {S : Type 0} (env : Environment S) (s : S) where
  -- The deletion of expired leases deletes only IPs that carry both the managed tag and the tag of
  -- the DHCP source, that no active or reserved lease has, that hang on no device interface and that
  -- lie in a network which was fetched; it changes nothing else, and nothing at all in dry-run mode.
  pub delete_expired-trace :
      (ctx : Setup) (ls : Leases) (networks : List Network)
      → All (OnlyGone ctx.netbox ls networks) (run env (delete_expired ctx ls networks) s).trace
  delete_expired-trace ctx ls networks =
      All-trace env (OnlyGone ctx.netbox ls networks) _ s (delete_expired-OnlyGone ctx ls networks)

  -- Every run of the DHCP sync deletes only objects that carry the managed tag, and writes nothing
  -- in dry-run mode.
  pub dhcp_run-trace :
      (ctx : Setup) (sites : List DhcpSite)
      → All (Permitted ctx.netbox) (run env (dhcp_run ctx sites) s).trace
  dhcp_run-trace ctx sites = All-trace env (Permitted ctx.netbox) _ s (dhcp_run-Permitted ctx sites)
