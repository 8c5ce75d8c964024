-- ===== src/Sync/Discovery/Guard.antt =====
-- What a discovery asks for.
use netbox_monitor.Prelude.{ℕ, String, Bool, Option, List, Dict}
use netbox_monitor.Wire.Request.{Request}
use netbox_monitor.Effects.Only.{Only, only_rules}
use netbox_monitor.Netbox.Guard.{Permitted}
use netbox_monitor.State.{record_check, get_host, set_kv}
use netbox_monitor.Status.{record_status}
use netbox_monitor.Sync.Common.Guard.{common_rules}
use netbox_monitor.Sync.Discovery.{
  Setup, DiscoverySite, scoped_prefixes, site_prefixes, dhcp_ranges, build_targets, document_found,
  scan_site, discovery_report, discover_site, discovery_run,
}

module _ (ctx : Setup) where
  abbrev P : Request → Type 0
  P = Permitted ctx.netbox

  scoped_prefixes-Permitted : (n : ℕ) → Only P (scoped_prefixes ctx n)
  unfolding scoped_prefixes
  scoped_prefixes-Permitted n = search (only_rules, tt) depth 8

  site_prefixes-Permitted : (s : DiscoverySite) → Only P (site_prefixes ctx s)
  unfolding site_prefixes
  site_prefixes-Permitted s = search (only_rules, tt, scoped_prefixes-Permitted) depth 8

  dhcp_ranges-Permitted : (s : DiscoverySite) → Only P (dhcp_ranges ctx s)
  unfolding dhcp_ranges
  dhcp_ranges-Permitted s = search (only_rules, tt) depth 8

  build_targets-Permitted : (s : DiscoverySite) (ps : List String) → Only P (build_targets ctx s ps)
  unfolding build_targets
  build_targets-Permitted s ps = search (only_rules, dhcp_ranges-Permitted) depth 8

  check-Permitted : (k : String) (b : Bool) (e : Option ℕ) → Only P (record_check k b e)
  unfolding record_check get_host
  check-Permitted k b e = search (only_rules, tt) depth 8

  document_found-Permitted :
      (s : DiscoverySite) (v a : Dict String) (ip : String) → Only P (document_found ctx s v a ip)
  unfolding document_found
  document_found-Permitted s v a ip = search (common_rules, check-Permitted, tt) depth 8

  scan_site-Permitted : (s : DiscoverySite) (v : Dict String) → Only P (scan_site ctx s v)
  unfolding scan_site
  scan_site-Permitted s v =
      search
        (only_rules, tt, site_prefixes-Permitted, build_targets-Permitted, document_found-Permitted)
        depth 20

  discovery_report-Permitted :
      (s : DiscoverySite) (b : Bool) (m : String) (n : ℕ) → Only P (discovery_report ctx s b m n)
  unfolding discovery_report record_status set_kv
  discovery_report-Permitted s b m n = search (only_rules, tt) depth 8

  discover_site-Permitted : (v : Dict String) (s : DiscoverySite) → Only P (discover_site ctx v s)
  unfolding discover_site
  discover_site-Permitted v s =
      search (only_rules, tt, scan_site-Permitted, discovery_report-Permitted) depth 8

  pub discovery_run-Permitted : (sites : List DiscoverySite) → Only P (discovery_run ctx sites)
  unfolding discovery_run
  discovery_run-Permitted sites = search (only_rules, tt, discover_site-Permitted) depth 8
