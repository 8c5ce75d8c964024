-- ===== src/Sync/Dns/Collect.antt =====
-- sync/dns.py: the collection of records, and `DnsSync.run`. Only the listing of the zones raises an
-- exception that leaves `_collect_site`, so a site that fails leaves the tables as they were.
use netbox_monitor.Prelude.{
  ℕ, ◌+◌, ◌-◌, String, Bool, true, false, not, ◌&&◌, ◌||◌, Option, none, some, List, [], ◌∷◌, Dict,
  lookup, insert, mem, keep, is_nil, is_some, maybe, truthy, non_empty, ◌<>◌, ◌==◌, if◌then◌else◌,
}
use netbox_monitor.Wire.Dns.{Zone, ZoneRecord}
use netbox_monitor.Wire.Request.{Request}
use netbox_monitor.Effects.{Prog, pure, ask, try_catch, ◌>>=◌, ◌>>◌, for_each}
use netbox_monitor.Net.Names.{sanitize_dns_name}
use netbox_monitor.Netbox.{Client}
use netbox_monitor.Status.{record_status}
use netbox_monitor.Technitium.{list_zones}
use netbox_monitor.Sync.Dns.Names.{Numerals, ptr_name_to_ip}
use netbox_monitor.Sync.Dns.Reconcile.{reconcile_names}

-- What the module reads of `ctx`, and the fuel of `list_zones`.
pub record Setup : Type 0 where
  pub netbox : Client
  pub zones_exclude : List String
  pub fuel : ℕ
  pub numerals : Numerals
  pub show_num : ℕ → String
  pub dump : ℕ → Bool → String → ℕ → String

pub record DnsSite : Type 0 where
  pub id : String
  pub has_technitium : Bool
  pub dns_enabled : Bool

-- `forward`, `ptr` and `count`
pub record Tables : Type 0 where
  pub forward : Dict String
  pub ptr : Dict String
  pub count : ℕ

-- `d.setdefault(k, v)`
unfoldable pub note_first : String → String → Dict String → Dict String
note_first k v d = if is_some (lookup k d) then d else insert k v d

unfoldable pub note_forward : ZoneRecord → Tables → Tables
note_forward r t =
    let name = sanitize_dns_name r.name in
    maybe (truthy r.ip_address) t (λ ip.
      if non_empty name
      then record t { forward = note_first ip name t.forward; count = t.count + 1 }
      else t)

unfoldable pub note_ptr : Numerals → ZoneRecord → Tables → Tables
note_ptr num r t =
    let target = sanitize_dns_name r.ptr_name in
    maybe (truthy (ptr_name_to_ip num (maybe r.name "" (λ n. n)))) t (λ ip.
      if non_empty target
      then record t { ptr = note_first ip target t.ptr; count = t.count + 1 }
      else t)

abbrev pub is_type : Option String → String → Bool
is_type t name = maybe t false (λ u. u == name)

-- the body of the loop over the records
unfoldable pub note_record : Numerals → ZoneRecord → Tables → Tables
note_record num r t =
    if is_type r.type "A" || is_type r.type "AAAA"
    then note_forward r t
    else if is_type r.type "PTR"
    then note_ptr num r t
    else t

unfoldable pub note_records : Numerals → List ZoneRecord → Tables → Tables
note_records num [] t = t
note_records num (r ∷ rs) t = note_records num rs (note_record num r t)

abbrev pub is_collected : List String → Zone → Bool
is_collected exclude zone =
    mem (maybe zone.type "" (λ t. t)) ("Primary" ∷ "Forwarder" ∷ "Stub" ∷ "Secondary" ∷ [])
    && not (mem zone.name exclude)
    && not zone.disabled

module _ (ctx : Setup) where
  -- The zone counts for nothing where its records cannot be read.
  unfoldable pub read_zone : DnsSite → Zone → Prog (Option (List ZoneRecord))
  read_zone site zone =
      try_catch (do records ← ask (Request.zone_records site.id zone.name); pure (some records))
        (λ _. pure none)

  unfoldable pub note_zone : DnsSite → Zone → Tables → Prog Tables
  note_zone site zone t = do
    records ← read_zone site zone
    maybe records (pure t) (λ rs. pure (note_records ctx.numerals rs t))

  -- the body of the loop over the zones
  unfoldable pub collect_zone : DnsSite → Zone → Tables → Prog Tables
  collect_zone site zone t =
      if is_collected ctx.zones_exclude zone then note_zone site zone t else pure t

  unfoldable pub collect_site : DnsSite → Tables → Prog Tables
  collect_site site t = do
    zones ← list_zones ctx.fuel site.id
    for_each zones (record t { count = 0 }) (λ zone u. collect_zone site zone u)

  unfoldable pub dns_report : DnsSite → Bool → String → ℕ → Prog (Unit {0})
  dns_report site ok message started = do
    ended ← ask Request.monotonic
    record_status ctx.dump "dns" site.id ok message (ended - started)

  -- The report of a success that raises is followed by that of a failure.
  unfoldable pub dns_site : DnsSite → Tables → Prog Tables
  dns_site site t = do
    started ← ask Request.monotonic
    collected ← try_catch (do u ← collect_site site t; pure (u, none)) (λ e. pure (t, some e.text))
    let (u, failure) = collected
    maybe failure
        (do
          try_catch (dns_report site true (ctx.show_num u.count <> " records collected") started)
              (λ e. dns_report site false e.text started)
          pure u)
        (λ message. do dns_report site false message started; pure u)

  abbrev pub dns_sites : List DnsSite → List DnsSite
  dns_sites all_sites = keep (λ s. s.has_technitium && s.dns_enabled) all_sites

  unfoldable pub collect_sites : List DnsSite → Prog Tables
  collect_sites sites =
      for_each sites (record { forward = []; ptr = []; count = 0 }) (λ site t. dns_site site t)

  unfoldable pub sync_names : List DnsSite → Prog (Unit {0})
  sync_names sites = do
    tables ← collect_sites sites
    reconcile_names ctx.netbox tables.forward tables.ptr

  unfoldable pub dns_run : List DnsSite → Prog (Unit {0})
  dns_run all_sites =
      if is_nil (dns_sites all_sites) then pure tt else sync_names (dns_sites all_sites)
