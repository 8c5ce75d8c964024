-- ===== src/Sync/Certs.antt =====
-- sync/certs.py: `CertSync`. The connection of `fetch_cert` is a request; `Setup.show_time` writes a
-- time and `Setup.show_num` a number.
pub mod Expiry
pub mod Guard
use netbox_monitor.Prelude.{
  ℕ, suc, ◌+◌, ◌-◌, ◌/◌, String, Bool, true, not, Option, none, some, List, [], ◌∷◌, ◌++◌, leb, ltb,
  is_nil, if◌then◌else◌, maybe, mem, before, take_text, non_empty, ◌<>◌,
}
use netbox_monitor.Transfer.Number.{ℤ, pos, negsuc}
use netbox_monitor.Wire.Certs.{Cert}
use netbox_monitor.Wire.Object.{Endpoint, Obj, flag, first_ip}
use netbox_monitor.Wire.Request.{Request, Exn}
use netbox_monitor.Effects.{Prog, pure, raise, ask, try_catch, ◌>>=◌, ◌>>◌, for_each}
use netbox_monitor.Netbox.{
  Client, cert_expired_tag_slug, cert_expiring_tag_slug, obj_tag_slugs, set_custom_fields, add_tags,
  remove_tags, journal,
}

-- What the module reads of `ctx`.
pub record Setup : Type 0 where
  pub netbox : Client
  pub ports : List ℕ
  pub expiring_days : ℕ
  pub show_num : ℕ → String
  pub show_time : ℕ → String

-- `min(certs, key=…)`: the first of those that expire first
unfoldable pub closest : Cert → List Cert → Cert
closest c [] = c
closest c (d ∷ ds) = closest (if ltb d.not_after c.not_after then d else c) ds

-- `(expiry - now).days`, which rounds down
abbrev pub days_left : ℕ → ℕ → ℤ
days_left expiry now =
    if leb now expiry then pos ((expiry - now) / 86400) else negsuc ((now - expiry - 1) / 86400)

-- The three branches of `write`, with `abs(days_left)`.
pub data Health : Type 0 where
  expired : ℕ → Health
  expiring : ℕ → Health
  healthy : Health

abbrev health_of : ℕ → ℤ → Health
health_of expiring_days (negsuc n) = expired (suc n)
health_of expiring_days (pos n) = if leb n expiring_days then expiring n else healthy

unfoldable pub health : ℕ → Cert → ℕ → Health
health expiring_days cert now = health_of expiring_days (days_left cert.not_after now)

abbrev pub issuer_of : Cert → String
issuer_of cert = if non_empty cert.issuer_name then cert.issuer_name else cert.issuer_organization

module _ (ctx : Setup) where
  -- one of the two tags in place of the other, and a journal entry where the tag is new
  unfoldable pub mark : Obj → List String → String → String → String → String → Prog (Unit {0})
  mark obj slugs tag other message kind = do
    (added, tagged) ← add_tags ctx.netbox obj (tag ∷ [])
    (removed, o) ← remove_tags ctx.netbox tagged (other ∷ [])
    if mem tag slugs then pure tt else journal ctx.netbox o message kind

  unfoldable pub write_health : Obj → String → Health → Prog (Unit {0})
  write_health obj cn (expired n) =
      mark obj (obj_tag_slugs obj) cert_expired_tag_slug cert_expiring_tag_slug
        ("TLS certificate EXPIRED " <> ctx.show_num n <> " days ago (CN " <> cn <> ")") "danger"
  write_health obj cn (expiring n) =
      mark obj (obj_tag_slugs obj) cert_expiring_tag_slug cert_expired_tag_slug
        ("TLS certificate expires in " <> ctx.show_num n <> " days (CN " <> cn <> ")") "warning"
  write_health obj cn healthy = do
    remove_tags ctx.netbox obj (cert_expiring_tag_slug ∷ cert_expired_tag_slug ∷ [])
    pure tt

  unfoldable pub apply_cert : Obj → Cert → Prog (Unit {0})
  apply_cert obj cert = do
    now ← ask Request.time
    (changed, o) ← set_custom_fields ctx.netbox obj (
        ("cert_expiry", ctx.show_time cert.not_after)
        ∷ ("cert_issuer", take_text 200 (issuer_of cert))
        ∷ ("cert_cn", take_text 200 cert.subject_name)
        ∷ [])
    write_health o cert.subject_name (health ctx.expiring_days cert now)

  unfoldable pub apply_certs : Obj → List Cert → Prog (Unit {0})
  apply_certs obj [] = pure tt
  apply_certs obj (c ∷ cs) = apply_cert obj (closest c cs)

  unfoldable pub probe : Obj → String → Prog (Unit {0})
  probe obj ip = do
    certs ← for_each ctx.ports [] (λ port found. do
      cert ← ask (Request.fetch_cert ip port)
      pure (maybe cert found (λ c. found ++ (c ∷ []))))
    apply_certs obj certs

  -- `asyncio.gather`: every probe runs, and the first exception is raised.
  unfoldable pub gather : List (Obj × String) → Option Exn → Prog (Unit {0})
  gather [] failure = maybe failure (pure tt) raise
  gather ((obj, ip) ∷ hosts) failure = do
    outcome ← try_catch (do probe obj ip; pure none) (λ e. pure (some e))
    gather hosts (maybe failure outcome some)

  unfoldable pub with_ips : List Obj → List (Obj × String)
  with_ips [] = []
  with_ips (o ∷ os) =
      let rest = with_ips os in
      maybe (first_ip o.primary_ip4 o.primary_ip) rest (λ ip. (o, before b'/' ip.address) ∷ rest)

  unfoldable pub hosts_with_ips : Prog (List (Obj × String))
  hosts_with_ips = do
    devices ← ask (Request.filter Endpoint.devices (("has_primary_ip", flag true) ∷ []))
    vms ← ask (Request.filter Endpoint.virtual_machines (("has_primary_ip", flag true) ∷ []))
    pure (with_ips (devices ++ vms))

  unfoldable pub certs_run : Prog (Unit {0})
  certs_run = do hosts ← hosts_with_ips; if is_nil hosts then pure tt else gather hosts none
