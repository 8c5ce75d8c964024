-- ===== src/Sync/Lldp/Crawl/Guard.antt =====
-- The crawl never opens a session to an excluded host, and writes through the guarded client only.
use netbox_monitor.Prelude.{
  ℕ, zero, suc, ◌+◌, String, ◌≡◌, false, Option, List, [], ◌∷◌, ◌++◌, mem, Dict,
}
use netbox_monitor.Wire.Object.{Obj, Endpoint, Payload}
use netbox_monitor.Wire.Lldp.{Neighbor, Credential}
use netbox_monitor.Wire.Request.{Request}
use netbox_monitor.Effects.Only.{Only, Only-weaken, only_rules, only_pure}
use netbox_monitor.Netbox.{Client, filter_tagged}
use netbox_monitor.Netbox.Guard.{Permitted, client_rules, filter_tagged-Permitted}
use netbox_monitor.Sync.Lldp.Types.{Context, Site, CrawlTarget, SiteStats}
use netbox_monitor.Sync.Lldp.Poll.{Poll, poll_target}
use netbox_monitor.Sync.Lldp.Poll.Bounds.{
  AtHost, AtHost-of_Permitted, poll_target-AtHost, collect_local_macs-AtHost,
}
use netbox_monitor.Sync.Lldp.Switch.{ensure_switch_device}
use netbox_monitor.Sync.Lldp.Merge.{dedup_and_record_macs}
use netbox_monitor.Sync.Lldp.Cable.{reconcile}
use netbox_monitor.Sync.Lldp.Guard.{
  ensure_switch_device-Permitted, dedup_and_record_macs-Permitted, reconcile-Permitted,
}
use netbox_monitor.Sync.Lldp.Crawl.{
  Visit, Seen, see_target, note_unreachable, note_visit, enqueue_neighbor, visit_switch, crawl_loop,
  crawl_site, excluded_hosts,
}

-- Contact with hosts outside the list only; of NetBox, what the client permits.
abbrev pub Avoids : Client → List String → Request → Type 0
Avoids c exclude (Request.collect d g u w k) = mem g exclude ≡ false
Avoids c exclude (Request.collect_macs d g u w k) = mem g exclude ≡ false
Avoids c exclude r = Permitted c r

module _ (c : Client) (exclude : List String) where
  pub Avoids-of_Permitted : (r : Request) → Permitted c r → Avoids c exclude r
  Avoids-of_Permitted (Request.collect d g u w k) p = absurd p
  Avoids-of_Permitted (Request.collect_macs d g u w k) p = absurd p
  Avoids-of_Permitted r p = p

  Avoids-of_AtHost :
      (h : String) → mem h exclude ≡ false → (r : Request) → AtHost c h r → Avoids c exclude r
  Avoids-of_AtHost h out (Request.collect d g u w k) p = rw p out
  Avoids-of_AtHost h out (Request.collect_macs d g u w k) p = rw p out
  Avoids-of_AtHost h out r p = p

module _ (ctx : Context) (site : Site) where
  pub enqueue_neighbor-Permitted :
      (d : ℕ) (ips macs : List String) (n : Neighbor) (v : Visit)
      → Only (Permitted ctx.netbox) (enqueue_neighbor ctx site d ips macs n v)
  unfolding enqueue_neighbor
  enqueue_neighbor-Permitted d ips macs n v =
      search (client_rules, ensure_switch_device-Permitted ctx)

module _ (ctx : Context) (site : Site) (t : CrawlTarget) where
  ensure_switch_device-AtHost :
      (ip d mac name : Option String)
      → Only (AtHost ctx.netbox t.host) (ensure_switch_device ctx site ip d mac name)
  ensure_switch_device-AtHost ip d mac name =
      Only-weaken _ (AtHost-of_Permitted ctx.netbox t.host)
        (ensure_switch_device-Permitted ctx site ip d mac name)

  dedup-AtHost :
      (o : Obj) (mac : Option String) (d : Dict (Option String))
      → Only (AtHost ctx.netbox t.host) (dedup_and_record_macs ctx.netbox o mac d)
  dedup-AtHost o mac d =
      Only-weaken _ (AtHost-of_Permitted ctx.netbox t.host)
        (dedup_and_record_macs-Permitted ctx.netbox o mac d)

  reconcile-AtHost :
      (o : Obj) (ns : List Neighbor) → Only (AtHost ctx.netbox t.host) (reconcile ctx site o ns)
  reconcile-AtHost o ns =
      Only-weaken _ (AtHost-of_Permitted ctx.netbox t.host) (reconcile-Permitted ctx site o ns)

  enqueue_neighbor-AtHost :
      (d : ℕ) (ips macs : List String) (n : Neighbor) (v : Visit)
      → Only (AtHost ctx.netbox t.host) (enqueue_neighbor ctx site d ips macs n v)
  enqueue_neighbor-AtHost d ips macs n v =
      Only-weaken _ (AtHost-of_Permitted ctx.netbox t.host)
        (enqueue_neighbor-Permitted ctx site d ips macs n v)

  visit_switch-AtHost :
      (p : Poll) (ips macs : List String)
      → Only (AtHost ctx.netbox t.host) (visit_switch ctx site t p ips macs)
  unfolding visit_switch
  visit_switch-AtHost p ips macs =
      search
        (
          only_rules, ensure_switch_device-AtHost, collect_local_macs-AtHost, dedup-AtHost,
          reconcile-AtHost, enqueue_neighbor-AtHost,
        )
        depth 10

module _ (ctx : Context) (site : Site) (profiles : List Credential) (exclude : List String) where
  poll_target-Avoids :
      (t : CrawlTarget)
      → mem t.host exclude ≡ false
      → Only (Avoids ctx.netbox exclude) (poll_target ctx t profiles)
  poll_target-Avoids t out =
      Only-weaken _ (Avoids-of_AtHost ctx.netbox exclude t.host out)
        (poll_target-AtHost ctx t profiles)

  visit_switch-Avoids :
      (t : CrawlTarget) (p : Poll) (ips macs : List String)
      → mem t.host exclude ≡ false
      → Only (Avoids ctx.netbox exclude) (visit_switch ctx site t p ips macs)
  visit_switch-Avoids t p ips macs out =
      Only-weaken _ (Avoids-of_AtHost ctx.netbox exclude t.host out)
        (visit_switch-AtHost ctx site t p ips macs)

  pub crawl_loop-Avoids :
      (budget : ℕ) (queue : List CrawlTarget) (seen : Seen) (stats : SiteStats)
      → Only
          (Avoids ctx.netbox exclude)
          (crawl_loop ctx site profiles exclude budget queue seen stats)
  unfolding crawl_loop
  crawl_loop-Avoids zero queue seen stats = only_pure _
  crawl_loop-Avoids (suc budget) [] seen stats = only_pure _
  crawl_loop-Avoids (suc budget) (t ∷ queue) seen stats =
      let again = crawl_loop-Avoids (suc budget) queue seen stats in
      let skip = crawl_loop-Avoids (suc budget) queue (see_target t seen) stats in
      let failed = λ (reason : String).
        crawl_loop-Avoids (suc budget) queue (see_target t seen)
          (note_unreachable t reason stats) in
      let next = λ (v : Visit).
        crawl_loop-Avoids budget (queue ++ v.targets)
          (record { ips = t.host ∷ seen.ips; macs = (see_target t seen).macs ++ v.macs })
          (note_visit v (record stats { polled = stats.polled + 1 })) in
      search (only_rules, poll_target-Avoids, visit_switch-Avoids) depth 8

module _ (ctx : Context) (site : Site) where
  seeds-Avoids :
      (e : Endpoint) (tag : String) (q : Payload)
      → Only (Avoids ctx.netbox (excluded_hosts ctx)) (filter_tagged ctx.netbox e tag q)
  seeds-Avoids e tag q =
      Only-weaken _ (Avoids-of_Permitted ctx.netbox (excluded_hosts ctx))
        (filter_tagged-Permitted ctx.netbox e tag q)

  -- No host of the exclusion list is contacted; what is asked of NetBox is permitted.
  pub crawl_site-Avoids : Only (Avoids ctx.netbox (excluded_hosts ctx)) (crawl_site ctx site)
  unfolding crawl_site
  crawl_site-Avoids = search (only_rules, seeds-Avoids, crawl_loop-Avoids)
