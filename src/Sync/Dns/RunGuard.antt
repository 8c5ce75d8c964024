-- ===== src/Sync/Dns/RunGuard.antt =====
-- What a run of the DNS sync asks for.
use netbox_monitor.Prelude.{ℕ, zero, suc, String, Bool, false, ◌≡◌, List, [], ◌∷◌, Dict, mem, arith}
use netbox_monitor.Wire.Object.{Endpoint, text}
use netbox_monitor.Wire.Dns.{Zone}
use netbox_monitor.Wire.Request.{Request}
use netbox_monitor.Effects.{pure}
use netbox_monitor.Effects.Only.{Only, only_pure, Only-if, Only-weaken, only_rules}
use netbox_monitor.Effects.Ensures.{Only-bind_ensured}
use netbox_monitor.State.{set_kv}
use netbox_monitor.Status.{record_status}
use netbox_monitor.Technitium.{zones_from, list_zones}
use netbox_monitor.Sync.Dns.Reconcile.{reconcile_names}
use netbox_monitor.Sync.Dns.Collect.{
  Setup, DnsSite, Tables, is_collected, read_zone, note_zone, collect_zone, collect_site,
  dns_report, dns_site, collect_sites, sync_names, dns_run,
}
use netbox_monitor.Sync.Dns.Filled.{
  IsName, IsFilled, Names, collect_sites-IsFilled, desired_name-IsName,
}
use netbox_monitor.Sync.Dns.Guard.{NamesOnly, reconcile_names-NamesOnly}

-- An update sets `dns_name` alone, to the name of a record; a zone that is read is not excluded.
abbrev pub DnsOnly : Setup → Request → Type 0
DnsOnly ctx (Request.create e d) = (ctx.netbox.dry_run ≡ false) × (e ≡ Endpoint.journal_entries)
DnsOnly ctx (Request.delete o) = ⊥
DnsOnly ctx (Request.update o d) =
    (ctx.netbox.dry_run ≡ false) × (n : String) × (IsName n) × (d ≡ ("dns_name", text n) ∷ [])
DnsOnly ctx (Request.zone_records site zone) = mem zone ctx.zones_exclude ≡ false
DnsOnly ctx (Request.collect d h u w k) = ⊥
DnsOnly ctx (Request.collect_macs d h u w k) = ⊥
DnsOnly ctx _ = Unit {0}

module _ (ctx : Setup) where
  Names-DnsOnly :
      (forward ptr : Dict String)
      → Names forward
      → Names ptr
      → (r : Request) → NamesOnly ctx.netbox forward ptr r
      → DnsOnly ctx r
  Names-DnsOnly forward ptr hf hp (Request.create e d) h = h
  Names-DnsOnly forward ptr hf hp (Request.delete o) h = h
  Names-DnsOnly forward ptr hf hp (Request.update o d) (live, n, wanted, differs, e) =
      (live, n, desired_name-IsName forward ptr _ n hf hp wanted, e)
  Names-DnsOnly forward ptr hf hp (Request.zone_records site zone) h = absurd h
  Names-DnsOnly forward ptr hf hp (Request.collect d g u w k) h = absurd h
  Names-DnsOnly forward ptr hf hp (Request.collect_macs d g u w k) h = absurd h
  Names-DnsOnly forward ptr hf hp _ h = tt

  reconcile-DnsOnly :
      (t : Tables) → IsFilled t → Only (DnsOnly ctx) (reconcile_names ctx.netbox t.forward t.ptr)
  reconcile-DnsOnly t h =
      Only-weaken _ (Names-DnsOnly t.forward t.ptr h.forward_names h.ptr_names)
        (reconcile_names-NamesOnly ctx.netbox t.forward t.ptr)

  zones_from-DnsOnly :
      (site : String) (fuel page : ℕ) (zones : List Zone)
      → Only (DnsOnly ctx) (zones_from site fuel page zones)
  unfolding zones_from
  zones_from-DnsOnly site zero page zones = search only_rules
  zones_from-DnsOnly site (suc fuel) page zones =
      search (only_rules, tt, zones_from-DnsOnly site fuel) depth 8

  note_zone-DnsOnly :
      (site : DnsSite) (zone : Zone) (t : Tables)
      → mem zone.name ctx.zones_exclude ≡ false
      → Only (DnsOnly ctx) (note_zone ctx site zone t)
  unfolding note_zone read_zone
  note_zone-DnsOnly site zone t kept = search only_rules depth 8

  collect_zone-DnsOnly :
      (site : DnsSite) (zone : Zone) (t : Tables)
      → Only (DnsOnly ctx) (collect_zone ctx site zone t)
  unfolding collect_zone
  collect_zone-DnsOnly site zone t =
      Only-if (is_collected ctx.zones_exclude zone) _ (pure t)
        (λ m. note_zone-DnsOnly site zone t (ground (arith, m))) (λ _. only_pure t)

  collect_site-DnsOnly :
      (site : DnsSite) (t : Tables) → Only (DnsOnly ctx) (collect_site ctx site t)
  unfolding collect_site list_zones
  collect_site-DnsOnly site t =
      search (only_rules, zones_from-DnsOnly, collect_zone-DnsOnly) depth 8

  dns_report-DnsOnly :
      (site : DnsSite) (b : Bool) (m : String) (n : ℕ)
      → Only (DnsOnly ctx) (dns_report ctx site b m n)
  unfolding dns_report record_status set_kv
  dns_report-DnsOnly site b m n = search (only_rules, tt) depth 8

  dns_site-DnsOnly : (site : DnsSite) (t : Tables) → Only (DnsOnly ctx) (dns_site ctx site t)
  unfolding dns_site
  dns_site-DnsOnly site t =
      search (only_rules, tt, collect_site-DnsOnly, dns_report-DnsOnly) depth 12

  collect_sites-DnsOnly : (sites : List DnsSite) → Only (DnsOnly ctx) (collect_sites ctx sites)
  unfolding collect_sites
  collect_sites-DnsOnly sites = search (only_rules, dns_site-DnsOnly)

  sync_names-DnsOnly : (sites : List DnsSite) → Only (DnsOnly ctx) (sync_names ctx sites)
  unfolding sync_names
  sync_names-DnsOnly sites =
      Only-bind_ensured {Q = IsFilled} (collect_sites ctx sites) _ (collect_sites-DnsOnly sites)
        (collect_sites-IsFilled ctx sites) reconcile-DnsOnly

  pub dns_run-DnsOnly : (sites : List DnsSite) → Only (DnsOnly ctx) (dns_run ctx sites)
  unfolding dns_run
  dns_run-DnsOnly sites = search (only_rules, sync_names-DnsOnly)
