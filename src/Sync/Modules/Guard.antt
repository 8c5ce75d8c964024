-- ===== src/Sync/Modules/Guard.antt =====
-- What the loops of all modules together ask for.
use netbox_monitor.Prelude.{ℕ, zero, suc, String, Bool, List, [], ◌∷◌, All, All-map, if-holds}
use netbox_monitor.Wire.Request.{Request}
use netbox_monitor.Effects.{Prog}
use netbox_monitor.Effects.Only.{Only, Only-weaken, only_rules}
use netbox_monitor.Effects.Run.{Environment, run, All-trace}
use netbox_monitor.Netbox.Guard.{Permitted}
use netbox_monitor.State.{set_kv}
use netbox_monitor.Status.{record_status}
use netbox_monitor.Scheduler.{SyncModule, module_report, run_module, sync_loop}
use netbox_monitor.Sync.Availability.{Watch, watch}
use netbox_monitor.Sync.Availability.Guard.{IsCareful, watch-IsCareful}
use netbox_monitor.Sync.Certs.Guard.{certs_run-Permitted}
use netbox_monitor.Sync.Dhcp.Guard.{dhcp_run-Permitted}
use netbox_monitor.Sync.Discovery.Guard.{discovery_run-Permitted}
use netbox_monitor.Sync.Dns.Collect
use netbox_monitor.Sync.Dns.Collect.{dns_run}
use netbox_monitor.Sync.Dns.RunGuard.{DnsOnly, dns_run-DnsOnly}
use netbox_monitor.Sync.Lldp.Crawl.{excluded_hosts}
use netbox_monitor.Sync.Lldp.Crawl.Guard.{Avoids, Avoids-of_Permitted}
use netbox_monitor.Sync.Proxmox.Guard.{proxmox_run-Permitted}
use netbox_monitor.Sync.Lldp.Run.{lldp_run-Avoids}
use netbox_monitor.Sync.Modules.{
  Services, keep_enabled, candidates, dhcp_setup, dns_setup, discovery_setup, watch_setup,
  proxmox_setup, lldp_runner, certs_setup, build_modules,
}

Permitted-of_DnsOnly : (ctx : Collect.Setup) (r : Request) → DnsOnly ctx r → Permitted ctx.netbox r
Permitted-of_DnsOnly ctx (Request.create e d) h = h.0
Permitted-of_DnsOnly ctx (Request.update o d) h = h.0
Permitted-of_DnsOnly ctx (Request.delete o) h = absurd h
Permitted-of_DnsOnly ctx (Request.collect d g u w k) h = absurd h
Permitted-of_DnsOnly ctx (Request.collect_macs d g u w k) h = absurd h
Permitted-of_DnsOnly ctx _ h = tt

Permitted-of_IsCareful : (w : Watch) (r : Request) → IsCareful w r → Permitted w.netbox r
Permitted-of_IsCareful w (Request.create e d) h = h
Permitted-of_IsCareful w (Request.update o d) h = h
Permitted-of_IsCareful w (Request.delete o) h = (h.0, h.1)
Permitted-of_IsCareful w (Request.collect d g u p k) h = absurd h
Permitted-of_IsCareful w (Request.collect_macs d g u p k) h = absurd h
Permitted-of_IsCareful w _ h = tt

module _ (svc : Services) where
  -- A write in a live run only; the deletion of an object that carries the managed tag; no session with
  -- a host of `exclude_hosts`.
  abbrev pub IsGuarded : Request → Type 0
  IsGuarded = Avoids svc.netbox (excluded_hosts (lldp_runner svc).ctx)

  IsGuarded-of_Permitted :
      {A : Type 0} (m : Prog A) → Only (Permitted svc.netbox) m → Only IsGuarded m
  IsGuarded-of_Permitted m h =
      Only-weaken m (Avoids-of_Permitted svc.netbox (excluded_hosts (lldp_runner svc).ctx)) h

  abbrev Guards : List SyncModule → Type 0
  Guards ms = All (λ m. Only IsGuarded m.run) ms

  keep_enabled-Guards :
      (cs : List (Bool × SyncModule))
      → All (λ (enabled, m). Only IsGuarded m.run) cs
      → Guards (keep_enabled cs)
  unfolding keep_enabled
  keep_enabled-Guards [] hs = tt
  keep_enabled-Guards ((enabled, m) ∷ cs) hs =
      let rest = keep_enabled-Guards cs hs.1 in
      if-holds Guards enabled (m ∷ keep_enabled cs) (keep_enabled cs) (λ _. (hs.0, rest))
        (λ _. rest)

  dns : Only IsGuarded (dns_run (dns_setup svc) svc.dns_sites)
  dns = IsGuarded-of_Permitted _ (
      Only-weaken _ (Permitted-of_DnsOnly (dns_setup svc))
        (dns_run-DnsOnly (dns_setup svc) svc.dns_sites))

  availability : Only IsGuarded (watch (watch_setup svc))
  availability =
      IsGuarded-of_Permitted _ (
        Only-weaken _ (Permitted-of_IsCareful (watch_setup svc))
          (watch-IsCareful (watch_setup svc)))

  build_modules-Guards : Guards (build_modules svc)
  unfolding build_modules
  build_modules-Guards = keep_enabled-Guards (candidates svc) (
    IsGuarded-of_Permitted _ (dhcp_run-Permitted (dhcp_setup svc) svc.dhcp_sites),
    (
      dns,
      (
        IsGuarded-of_Permitted _
            (discovery_run-Permitted (discovery_setup svc) svc.discovery_sites),
        (
          availability,
          (
            IsGuarded-of_Permitted _ (proxmox_run-Permitted (proxmox_setup svc) svc.proxmox_sites),
            (
              lldp_run-Avoids (lldp_runner svc) svc.lldp_sites,
              (IsGuarded-of_Permitted _ (certs_run-Permitted (certs_setup svc)), tt),
            ),
          ),
        ),
      ),
    ),
  )

  module_report-IsGuarded :
      (dump : ℕ → Bool → String → ℕ → String) (m : SyncModule) (ok : Bool) (message : String)
      (n : ℕ)
      → Only IsGuarded (module_report dump m ok message n)
  unfolding module_report record_status set_kv
  module_report-IsGuarded dump m ok message n = search (only_rules, tt) depth 8

  run_module-IsGuarded :
      (dump : ℕ → Bool → String → ℕ → String) (m : SyncModule)
      → Only IsGuarded m.run
      → Only IsGuarded (run_module dump m)
  unfolding run_module
  run_module-IsGuarded dump m h = search (only_rules, tt, h, module_report-IsGuarded) depth 8

  sync_loop-IsGuarded :
      (dump : ℕ → Bool → String → ℕ → String) (rounds : ℕ) (m : SyncModule) (timeout : ℕ)
      → Only IsGuarded m.run
      → Only IsGuarded (sync_loop dump rounds m timeout)
  unfolding sync_loop
  sync_loop-IsGuarded dump zero m timeout h = search only_rules
  sync_loop-IsGuarded dump (suc rounds) m timeout h =
      let rest = λ (next : ℕ). sync_loop-IsGuarded dump rounds m next h in
      search (only_rules, tt, run_module-IsGuarded dump m h, rest) depth 10

-- Whatever is configured, and in every run of the loop of every module that `build_modules` starts, for
-- however many rounds: nothing is written in NetBox in dry-run mode, no object without the managed tag
-- is deleted, and no session with a host of `exclude_hosts` is opened.
pub build_modules-trace :
    {S : Type 0} (env : Environment S) (s : S) (svc : Services)
    (dump : ℕ → Bool → String → ℕ → String) (rounds timeout : ℕ)
    → All
        (λ m. All (IsGuarded svc) (run env (sync_loop dump rounds m timeout) s).trace)
        (build_modules svc)
build_modules-trace env s svc dump rounds timeout =
    All-map (build_modules svc)
      (λ m h. All-trace env (IsGuarded svc) _ s (sync_loop-IsGuarded svc dump rounds m timeout h))
      (build_modules-Guards svc)
