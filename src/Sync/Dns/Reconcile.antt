-- ===== src/Sync/Dns/Reconcile.antt =====
-- sync/dns.py: `DnsSync._reconcile`, with the two tables that the collection of records gives: from
-- an address to the name of a record A or AAAA, and to the name of a record PTR. Messages to the log
-- are not modelled.
use netbox_monitor.Prelude.{
  String, Option, none, some, [], ◌∷◌, Dict, lookup, maybe, truthy, before, ◌<>◌, ◌==◌, ◌=?◌,
  if◌then◌else◌,
}
use netbox_monitor.Wire.Object.{Endpoint, Obj, text}
use netbox_monitor.Wire.Request.{Request}
use netbox_monitor.Effects.{Prog, pure, ask, ◌>>=◌, for_each}
use netbox_monitor.Netbox
use netbox_monitor.Netbox.{Client, is_managed, journal}
use netbox_monitor.Netbox.Slug.{lower, strip_right}

-- `str(obj.address).split("/")[0]`
abbrev pub host_of : Obj → String
host_of obj = before b'/' obj.address

-- `(obj.dns_name or "").rstrip(".").lower()`
abbrev pub current_name : Obj → String
current_name obj = lower (strip_right (λ c. c =? b'.') obj.dns_name)

-- `forward.get(host) or ptr.get(host)`, where it is true in a test
abbrev pub desired_name : Dict String → Dict String → String → Option String
desired_name forward ptr host =
    maybe (truthy (lookup host forward)) (truthy (lookup host ptr)) (λ name. some name)

-- the body of the loop over the addresses
unfoldable pub reconcile_name : Client → Dict String → Dict String → Obj → Prog (Unit {0})
reconcile_name c forward ptr obj =
    maybe (desired_name forward ptr (host_of obj)) (pure tt) (λ desired.
      if current_name obj == desired then pure tt else do
        (changed, o) ← Netbox.update c obj (("dns_name", text desired) ∷ [])
        if is_managed o none
            then journal c o ("dns_name set to " <> desired <> " from Technitium") "info"
            else pure tt)

unfoldable pub reconcile_names : Client → Dict String → Dict String → Prog (Unit {0})
reconcile_names c forward ptr = do
  all_ips ← ask (Request.filter Endpoint.ip_addresses [])
  for_each all_ips tt (λ obj _. reconcile_name c forward ptr obj)
