-- ===== src/Sync/Certs/Guard.antt =====
-- What the certificate module asks for.
use netbox_monitor.Prelude.{String, Option, List, [], ◌∷◌}
use netbox_monitor.Wire.Certs.{Cert}
use netbox_monitor.Wire.Object.{Obj}
use netbox_monitor.Wire.Request.{Request, Exn}
use netbox_monitor.Effects.Only.{Only, only_rules}
use netbox_monitor.Netbox.Guard.{Permitted, client_rules}
use netbox_monitor.Sync.Certs.{
  Setup, Health, expired, expiring, healthy, closest, mark, write_health, apply_cert, apply_certs,
  probe, gather, hosts_with_ips, certs_run,
}

module _ (ctx : Setup) where
  abbrev P : Request → Type 0
  P = Permitted ctx.netbox

  mark-Permitted :
      (o : Obj) (slugs : List String) (t u m k : String) → Only P (mark ctx o slugs t u m k)
  unfolding mark
  mark-Permitted o slugs t u m k = search client_rules depth 8

  write_health-Permitted : (o : Obj) (cn : String) (h : Health) → Only P (write_health ctx o cn h)
  unfolding write_health
  write_health-Permitted o cn (expired n) = mark-Permitted _ _ _ _ _ _
  write_health-Permitted o cn (expiring n) = mark-Permitted _ _ _ _ _ _
  write_health-Permitted o cn healthy = search client_rules depth 8

  apply_cert-Permitted : (o : Obj) (c : Cert) → Only P (apply_cert ctx o c)
  unfolding apply_cert
  apply_cert-Permitted o c = search (client_rules, write_health-Permitted) depth 8

  apply_certs-Permitted : (o : Obj) (cs : List Cert) → Only P (apply_certs ctx o cs)
  unfolding apply_certs
  apply_certs-Permitted o [] = search only_rules
  apply_certs-Permitted o (c ∷ cs) = apply_cert-Permitted o (closest c cs)

  probe-Permitted : (o : Obj) (ip : String) → Only P (probe ctx o ip)
  unfolding probe
  probe-Permitted o ip = search (only_rules, tt, apply_certs-Permitted) depth 8

  gather-Permitted : (hosts : List (Obj × String)) (f : Option Exn) → Only P (gather ctx hosts f)
  unfolding gather
  gather-Permitted [] f = search only_rules
  gather-Permitted ((o, ip) ∷ hosts) f =
      let rest = gather-Permitted hosts in search (only_rules, probe-Permitted, rest) depth 8

  hosts-Permitted : Only P (hosts_with_ips ctx)
  unfolding hosts_with_ips
  hosts-Permitted = search (only_rules, tt) depth 8

  pub certs_run-Permitted : Only P (certs_run ctx)
  unfolding certs_run
  certs_run-Permitted = search (only_rules, hosts-Permitted, gather-Permitted) depth 8
