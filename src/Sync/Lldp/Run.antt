-- ===== src/Sync/Lldp/Run.antt =====
-- sync/lldp.py: `_enabled_sites`, `_warn_stranded_seeds` and `run`. The netbox-secrets client is made
-- and closed by a run; neither asks NetBox for anything.
use netbox_monitor.Prelude.{
  ℕ, ◌-◌, String, Bool, false, not, List, [], ◌∷◌, All, keep, map, take, is_nil, ◌=?◌,
  if◌then◌else◌, ◌<>◌,
}
use netbox_monitor.Wire.Object.{Endpoint, Payload}
use netbox_monitor.Wire.Request.{Request}
use netbox_monitor.Effects.{Prog, pure, try_catch, ask, ◌>>=◌, ◌>>◌, for_each}
use netbox_monitor.Effects.Only.{Only, only_rules, Only-weaken}
use netbox_monitor.Effects.Run.{Environment, run, All-trace}
use netbox_monitor.Netbox.{filter_tagged}
use netbox_monitor.Netbox.Guard.{filter_tagged-Permitted}
use netbox_monitor.Netbox.Slug.{slugify}
use netbox_monitor.State.{set_kv}
use netbox_monitor.Status.{record_status}
use netbox_monitor.Sync.Lldp.Types.{Context, Site, SiteStats}
use netbox_monitor.Sync.Lldp.Crawl.{crawl_site, excluded_hosts}
use netbox_monitor.Sync.Lldp.Crawl.Guard.{Avoids, Avoids-of_Permitted, crawl_site-Avoids}

-- `ResolvedSite`, with its own switch.
pub record SiteEntry : Type 0 where
  pub site : Site
  pub lldp_enabled : Bool

-- `ctx`, with the global switch; `show_num` is `str` of an integer, `dump` the JSON of a status.
pub record Runner : Type 0 where
  pub ctx : Context
  pub lldp_enabled : Bool
  pub show_num : ℕ → String
  pub dump : ℕ → Bool → String → ℕ → String

unfoldable pub enabled_sites : Runner → List SiteEntry → List Site
enabled_sites r sites =
    let enabled = keep (λ s. s.lldp_enabled) sites in
    if not (is_nil enabled)
    then map (λ s. s.site) enabled
    else if r.lldp_enabled
    then map (λ s. s.site) sites
    else []

-- Diagnostics only: the seeds are read for a warning in the log.
unfoldable pub warn_stranded_seeds : Context → Prog (Unit {0})
warn_stranded_seeds ctx = do
  try_catch (filter_tagged ctx.netbox Endpoint.devices (slugify ctx.source_tag) []) (λ _. pure [])
  pure tt

abbrev pub join_failures : List String → String
join_failures [] = ""
join_failures (s ∷ []) = s
join_failures (s ∷ t ∷ rest) = s <> "; " <> join_failures (t ∷ rest)

unfoldable pub status_message : Runner → SiteStats → String
status_message r stats =
    r.show_num stats.polled
    <> " polled, "
    <> r.show_num stats.created
    <> " switches created"
    <> (if stats.failed =? 0 then "" else ", " <> r.show_num stats.failed <> " unreachable")
    <> (if is_nil stats.failures then "" else " — " <> join_failures (take 3 stats.failures))

unfoldable pub report_site : Runner → Site → Bool → String → ℕ → Prog (Unit {0})
report_site r site ok message started = do
  ended ← ask Request.monotonic
  record_status r.dump "lldp" site.id ok message (ended - started)

unfoldable pub run_site : Runner → Site → Prog (Unit {0})
run_site r site = do
  started ← ask Request.monotonic
  try_catch
      (do
        stats ← crawl_site r.ctx site
        report_site r site (stats.failed =? 0) (status_message r stats) started)
      (λ e. report_site r site false e.text started)

unfoldable pub lldp_run : Runner → List SiteEntry → Prog (Unit {0})
lldp_run r entries = do
  let sites = enabled_sites r entries
  if is_nil sites
      then pure tt
      else do warn_stranded_seeds r.ctx; for_each sites tt (λ site _. run_site r site)

module _ (r : Runner) where
  abbrev P : Request → Type 0
  P = Avoids r.ctx.netbox (excluded_hosts r.ctx)

  report_site-Avoids : (s : Site) (b : Bool) (m : String) (n : ℕ) → Only P (report_site r s b m n)
  unfolding report_site record_status set_kv
  report_site-Avoids s b m n = search (only_rules, tt) depth 8

  filter_tagged-Avoids :
      (e : Endpoint) (t : String) (q : Payload) → Only P (filter_tagged r.ctx.netbox e t q)
  filter_tagged-Avoids e t q =
      Only-weaken _ (Avoids-of_Permitted r.ctx.netbox (excluded_hosts r.ctx))
        (filter_tagged-Permitted r.ctx.netbox e t q)

  warn_stranded_seeds-Avoids : Only P (warn_stranded_seeds r.ctx)
  unfolding warn_stranded_seeds
  warn_stranded_seeds-Avoids = search (only_rules, filter_tagged-Avoids) depth 8

  run_site-Avoids : (s : Site) → Only P (run_site r s)
  unfolding run_site
  run_site-Avoids s = search (only_rules, tt, report_site-Avoids, crawl_site-Avoids r.ctx) depth 8

  pub lldp_run-Avoids : (sites : List SiteEntry) → Only P (lldp_run r sites)
  unfolding lldp_run
  lldp_run-Avoids sites = search (only_rules, warn_stranded_seeds-Avoids, run_site-Avoids) depth 8

module _ {S : Type 0} (env : Environment S) (s : S) where
  -- In every run of the LLDP module over all its sites, no session is opened with a host of
  -- `exclude_hosts`, nothing is written in dry-run mode, and no object without the managed tag is
  -- deleted.
  pub lldp_run-trace :
      (r : Runner) (sites : List SiteEntry)
      → All (Avoids r.ctx.netbox (excluded_hosts r.ctx)) (run env (lldp_run r sites) s).trace
  lldp_run-trace r sites =
      All-trace env (Avoids r.ctx.netbox (excluded_hosts r.ctx)) _ s (lldp_run-Avoids r sites)
