-- ===== src/Sync/Discovery.antt =====
-- sync/discovery.py: `DiscoverySync`. An address is a number here; `Setup.show_num` writes its parts.
pub mod Targets
pub mod Bounds
pub mod Guard
use netbox_monitor.Prelude.{
  ℕ, ◌-◌, ◌/◌, ◌%◌, ◌^◌, String, Bool, true, false, not, ◌&&◌, Option, none, some, List, [], ◌∷◌,
  ◌=?◌, Dict, lookup, length, keep, is_nil, map, if◌then◌else◌, maybe, is_some, before, replace,
  non_empty, ◌<>◌,
}
use netbox_monitor.Wire.Object.{Endpoint, Obj, text, num}
use netbox_monitor.Wire.Request.{Request, Exn, ExnClass}
use netbox_monitor.Effects.{Prog, pure, raise, try_catch, ask, ◌>>=◌, ◌>>◌, for_each}
use netbox_monitor.Net.Names.{sanitize_dns_name}
use netbox_monitor.Net.Oui.{oui_lookup}
use netbox_monitor.Netbox.{Client}
use netbox_monitor.State.{record_check}
use netbox_monitor.Status.{record_status}
use netbox_monitor.Sync.Common.Host.{ensure_host_device}
use netbox_monitor.Sync.Discovery.Targets.{ranges_of, targets_of}

-- What the module reads of `ctx`. `is_v6` is whether `ip_network` of a text is of version 6.
pub record Setup : Type 0 where
  pub netbox : Client
  pub max_hosts_per_prefix : ℕ
  pub number_of_sites : ℕ
  pub is_v6 : String → Bool
  pub show_num : ℕ → String
  pub dump : ℕ → Bool → String → ℕ → String

pub record DiscoverySite : Type 0 where
  pub id : String
  pub netbox_site : String
  pub netbox_site_id : Option ℕ
  pub enabled : Bool
  pub has_technitium : Bool
  pub include_prefixes : List String
  pub exclude_prefixes : List String

abbrev pub scan_source : String
scan_source = "src-scan"

-- `str(host)`
abbrev pub dotted : (ℕ → String) → ℕ → String
dotted show n =
    show (n / 2 ^ 24 % 256)
    <> "."
    <> show (n / 2 ^ 16 % 256)
    <> "."
    <> show (n / 2 ^ 8 % 256)
    <> "."
    <> show (n % 256)

abbrev value_error : Exn
value_error = record { class = ExnClass.value_error; type_name = "ValueError"; text = "" }

module _ (ctx : Setup) where
  unfoldable pub scoped_prefixes : ℕ → Prog (List Obj)
  scoped_prefixes site_id =
      try_catch
        (ask (
          Request.filter Endpoint.prefixes (
            ("status", text "active")
            ∷ ("scope_type", text "dcim.site")
            ∷ ("scope_id", num site_id)
            ∷ [])))
        (λ _. ask (
          Request.filter Endpoint.prefixes
            (("status", text "active") ∷ ("site_id", num site_id) ∷ [])))

  unfoldable pub site_prefixes : DiscoverySite → Prog (List String)
  site_prefixes site =
      if not (is_nil site.include_prefixes)
      then pure site.include_prefixes
      else maybe site.netbox_site_id (pure []) (λ site_id. do
        scoped ← scoped_prefixes site_id
        if is_nil scoped && ctx.number_of_sites =? 1
            then (do
              active ← ask (Request.filter Endpoint.prefixes (("status", text "active") ∷ []))
              pure (map (λ p. p.prefix) active))
            else pure (map (λ p. p.prefix) scoped))

  -- The ranges that were read before an exception count.
  unfoldable pub dhcp_ranges : DiscoverySite → Prog (List (ℕ × ℕ))
  dhcp_ranges site =
      if site.has_technitium
      then try_catch (do scopes ← ask (Request.dhcp_scopes site.id); pure (ranges_of scopes))
          (λ _. pure [])
      else pure []

  unfoldable pub build_targets : DiscoverySite → List String → Prog (List ℕ)
  build_targets site prefixes = do
    ranges ← dhcp_ranges site
    maybe (targets_of ctx.is_v6 ctx.max_hosts_per_prefix ranges site.exclude_prefixes prefixes)
        (raise value_error) pure

  abbrev pub name_of : String → String → String
  name_of rdns ip =
      if non_empty rdns then before b'.' rdns else "discovered-" <> replace b'.' "-" ip

  -- one host that answered
  unfoldable pub document_found :
      DiscoverySite → Dict String → Dict String → String → Prog (Unit {0})
  document_found site vendors arp ip = do
    let mac = lookup ip arp
    resolved ← ask (Request.reverse_dns ip)
    let rdns = sanitize_dns_name resolved
    documented ←
        try_catch
          (do
            ensure_host_device ctx.netbox (record {
              name = name_of rdns ip;
              ip = ip;
              source_slug = scan_source;
              site_id = site.netbox_site_id;
              mac = mac;
              vendor = maybe mac none (oui_lookup vendors);
              dns_name = rdns;
              description = "Discovered by ping sweep";
            })
            pure true)
          (λ _. pure false)
    if documented then (do record_check ("ip:" <> ip) true none; pure tt) else pure tt

  abbrev no_targets : DiscoverySite → List String → String
  no_targets site prefixes =
      if is_nil prefixes
      then "no prefixes scoped to NetBox site '"
        <> (if non_empty site.netbox_site then site.netbox_site else site.id)
        <> "' — scope prefixes to the site in NetBox, or set include-prefixes for this site"
      else "no scannable hosts (all in DHCP scopes or excluded)"

  unfoldable pub scan_site : DiscoverySite → Dict String → Prog (ℕ × Option String)
  scan_site site vendors = do
    prefixes ← site_prefixes site
    targets ← build_targets site prefixes
    if is_nil targets then pure (0, some (no_targets site prefixes)) else do
      results ← ask (Request.ping (map (dotted ctx.show_num) targets))
      let alive = map (λ (ip, _). ip) (keep (λ (_, up). up) results)
      if is_nil alive then pure (0, none) else do
        arp ← ask Request.arp_table
        for_each alive tt (λ ip _. document_found site vendors arp ip)
        pure (length alive, none)

  unfoldable pub discovery_report : DiscoverySite → Bool → String → ℕ → Prog (Unit {0})
  discovery_report site ok message started = do
    ended ← ask Request.monotonic
    record_status ctx.dump "discovery" site.id ok message (ended - started)

  unfoldable pub discover_site : Dict String → DiscoverySite → Prog (Unit {0})
  discover_site vendors site = do
    started ← ask Request.monotonic
    try_catch
        (do
          (found, note) ← scan_site site vendors
          discovery_report site true (maybe note (ctx.show_num found <> " hosts alive") (λ n. n))
              started)
        (λ e. discovery_report site false e.text started)

  unfoldable pub discovery_run : List DiscoverySite → Prog (Unit {0})
  discovery_run all_sites = do
    let sites = keep (λ s. s.enabled) all_sites
    if is_nil sites then pure tt else do
      vendors ← ask Request.load_oui
      for_each sites tt (λ site _. discover_site vendors site)
