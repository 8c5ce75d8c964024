-- ===== src/Sync/Lldp/Crawl.antt =====
-- sync/lldp.py: `_crawl_site`, the breadth-first crawl from the seed switches of a site.
pub mod Guard
pub mod Bounds
use netbox_monitor.Prelude.{
  ℕ, zero, suc, ◌+◌, String, Bool, true, false, not, ◌&&◌, ◌||◌, Option, none, some, List, [], ◌∷◌,
  ◌++◌, Dict, either, map, keep, if◌then◌else◌, maybe, mem, is_some, is_nil, non_empty, leb, truthy,
  before, ◌<>◌,
}
use netbox_monitor.Wire.Object.{Endpoint, Obj, first_ip}
use netbox_monitor.Wire.Lldp.{Neighbor, Credential}
use netbox_monitor.Wire.Request.{Request}
use netbox_monitor.Effects.{Prog, pure, ask, ◌>>=◌, ◌>>◌, for_each}
use netbox_monitor.Netbox.{filter_tagged}
use netbox_monitor.Netbox.Slug.{slugify, strip, is_space, strip_left, strip_right}
use netbox_monitor.Lldp.{is_crawlable_switch}
use netbox_monitor.Lldp.Registry.{select_driver, collect_local_macs}
use netbox_monitor.Sync.Common.Host.{or_null}
use netbox_monitor.Sync.Lldp.Types.{Context, Site, CrawlTarget, SiteStats}
use netbox_monitor.Sync.Lldp.Attempts.{credential_profiles}
use netbox_monitor.Sync.Lldp.Poll.{Poll, poll_target}
use netbox_monitor.Sync.Lldp.Switch.{ensure_switch_device}
use netbox_monitor.Sync.Lldp.Merge.{dedup_and_record_macs}
use netbox_monitor.Sync.Lldp.Cable.{reconcile}

-- What is new after a switch has been polled and documented.
pub record Visit : Type 0 where
  pub created : ℕ
  pub macs : List String
  pub targets : List CrawlTarget

abbrev created_count : Option Obj → ℕ
created_count device = maybe device 0 (λ d. if d.created then 1 else 0)

-- The test of the inner loop: a neighbour that was visited, by its IP or by its chassis MAC.
unfoldable pub is_visited : List String → List String → Neighbor → Bool
is_visited visited_ip visited_mac n =
    maybe n.mgmt_ip false (λ ip. mem ip visited_ip)
    || maybe (truthy n.chassis_mac) false (λ mac. mem mac visited_mac)

-- One round of the loop over the neighbours.
unfoldable pub enqueue_neighbor :
    Context → Site → ℕ → List String → List String → Neighbor → Visit → Prog Visit
enqueue_neighbor ctx site depth visited_ip visited_mac n v =
    if not (is_crawlable_switch n) || is_visited visited_ip visited_mac n then pure v else do
      device ← ensure_switch_device ctx site n.mgmt_ip n.sys_descr n.chassis_mac n.sysname
      pure (record v {
        created = v.created + created_count device;
        targets =
            v.targets
            ++ (record {
              host = maybe n.mgmt_ip "" (λ ip. ip);
              device = device;
              hint_driver = select_driver none n.sys_descr;
              depth = depth + 1;
              sys_descr = n.sys_descr;
              chassis_mac = n.chassis_mac;
            })
              ∷ [];
      })

-- The part of a round behind `stats.polled += 1`.
unfoldable pub visit_switch :
    Context → Site → CrawlTarget → Poll → List String → List String → Prog Visit
visit_switch ctx site target poll visited_ip visited_mac = do
  device ←
      maybe target.device
        (ensure_switch_device ctx site (some target.host) target.sys_descr target.chassis_mac none)
        (λ d. pure (some d))
  let fresh = maybe target.device (created_count device) (λ _. 0)
  maybe device (pure (record { created = fresh; macs = []; targets = [] })) (λ found. do
    local_macs ←
        maybe poll.cred (pure [])
          (λ c. collect_local_macs poll.driver target.host c.username c.password c.snmp_community)
    (switch, identity) ← dedup_and_record_macs ctx.netbox found target.chassis_mac local_macs
    reconcile ctx site switch poll.neighbors
    let start : Visit = record { created = fresh; macs = identity; targets = [] }
    if not ctx.crawl_enabled || leb ctx.max_depth target.depth
        then pure start
        else for_each poll.neighbors start
            (enqueue_neighbor ctx site target.depth visited_ip (visited_mac ++ identity)))

-- What the loop has seen.
pub record Seen : Type 0 where
  pub ips : List String
  pub macs : List String

abbrev pub see_target : CrawlTarget → Seen → Seen
see_target t seen = record {
  ips = t.host ∷ seen.ips;
  macs = maybe (truthy t.chassis_mac) seen.macs (λ mac. mac ∷ seen.macs);
}

abbrev pub note_unreachable : CrawlTarget → String → SiteStats → SiteStats
note_unreachable t reason stats = record stats {
  failed = stats.failed + 1;
  failures =
      stats.failures
      ++ (t.host
          <> ": "
          <> maybe (truthy (some reason)) "unreachable/no working credential" (λ r. r))
        ∷ [];
}

abbrev pub note_visit : Visit → SiteStats → SiteStats
note_visit v stats = record stats { created = stats.created + v.created }

module _ (ctx : Context) (site : Site) (profiles : List Credential) (exclude : List String) where
  -- The `while` loop. The first number is `max_switches - stats.polled`, so the loop's test is that
  -- it is not zero and that the queue is not empty.
  unfoldable pub crawl_loop : ℕ → List CrawlTarget → Seen → SiteStats → Prog SiteStats
  crawl_loop zero queue seen stats = pure stats
  crawl_loop (suc budget) [] seen stats = pure stats
  crawl_loop (suc budget) (target ∷ queue) seen stats =
      let seen' = see_target target seen in
      let again = crawl_loop (suc budget) queue seen stats in
      let skip = crawl_loop (suc budget) queue seen' stats in
      let go = poll_target ctx target profiles >>= λ outcome.
      either outcome
        (λ poll. visit_switch ctx site target poll seen'.ips seen'.macs >>= λ v.
          crawl_loop budget (queue ++ v.targets) (record seen' { macs = seen'.macs ++ v.macs })
            (note_visit v (record stats { polled = stats.polled + 1 })))
        (λ reason. crawl_loop (suc budget) queue seen' (note_unreachable target reason stats)) in
      if mem target.host seen.ips then again else if mem target.host exclude then skip else go

-- The queue of the seeds that have a primary IP.
unfoldable pub seed_targets : List Obj → List CrawlTarget
seed_targets [] = []
seed_targets (seed ∷ seeds) =
    let rest = seed_targets seeds in
    maybe (first_ip seed.primary_ip4 seed.primary_ip) rest (λ ip.
      (record {
        host = before b'/' ip.address;
        device = some seed;
        hint_driver = select_driver (some seed.platform) none;
        depth = 0;
        sys_descr = none;
        chassis_mac = none;
      })
      ∷ rest)

unfoldable pub excluded_hosts : Context → List String
unfolding strip_left strip_right
excluded_hosts ctx = keep non_empty (map (strip is_space) ctx.exclude_hosts)

unfoldable pub crawl_site : Context → Site → Prog SiteStats
crawl_site ctx site = do
  let start : SiteStats = record { polled = 0; created = 0; failed = 0; failures = [] }
  seeds ←
      filter_tagged ctx.netbox Endpoint.devices (slugify ctx.source_tag)
        (("site_id", or_null site.netbox_site_id) ∷ [])
  if is_nil seeds
      then pure start
      else crawl_loop ctx site (credential_profiles ctx site) (excluded_hosts ctx) ctx.max_switches
          (seed_targets seeds) (record { ips = []; macs = [] }) start
