-- ===== src/Sync/Dhcp/Run.antt =====
-- sync/dhcp.py: the scopes, the deletion of expired leases, and `run`.
use netbox_monitor.Prelude.{
  ℕ, ◌-◌, ◌/◌, ◌%◌, ◌^◌, String, Bool, true, false, not, ◌&&◌, ◌||◌, Option, none, some, List, [],
  ◌∷◌, ◌++◌, Dict, keep, any, is_nil, mem, length, if◌then◌else◌, maybe, before, ◌==◌, ◌<>◌,
}
use netbox_monitor.Wire.Object.{Endpoint, Obj, text}
use netbox_monitor.Wire.Dhcp.{Scope, Lease}
use netbox_monitor.Wire.Request.{Request}
use netbox_monitor.Effects.{Prog, pure, try_catch, ask, ◌>>=◌, ◌>>◌, for_each}
use netbox_monitor.Net.Ipv4.{Network, parse_address, parse_network, contains}
use netbox_monitor.Netbox
use netbox_monitor.Netbox.{Client, is_managed, set_custom_fields, filter_tagged}
use netbox_monitor.Sync.Common.Lookup.{interface_type}
use netbox_monitor.Status.{record_status}
use netbox_monitor.Sync.Dhcp.Lease.{Setup, DhcpSite, Leases, dhcp_source, add_address, sync_lease}

unfoldable pub scope_network : Scope → Option Network
scope_network s =
    maybe s.starting none (λ start. maybe s.mask none (λ m. parse_network (start <> "/" <> m)))

-- `str(network)`
unfoldable pub show_network : (ℕ → String) → Network → String
show_network show n =
    show (n.address / 2 ^ 24)
    <> "."
    <> show (n.address / 2 ^ 16 % 256)
    <> "."
    <> show (n.address / 2 ^ 8 % 256)
    <> "."
    <> show (n.address % 256)
    <> "/"
    <> show n.prefix_len

abbrev scope_label : Scope → String
scope_label s =
    maybe s.name "?" (λ n. n)
    <> " ("
    <> maybe s.starting "None" (λ a. a)
    <> "-"
    <> maybe s.ending "None" (λ a. a)
    <> ", "
    <> (if s.enabled then "enabled" else "disabled")
    <> ")"

-- The local variables of `run`: the sets of all sites, and the networks that were fetched.
pub record Totals : Type 0 where
  pub leases : Leases
  pub networks : List Network

unfoldable pub networks_of : List Scope → List Network
networks_of [] = []
networks_of (s ∷ ss) = let rest = networks_of ss in maybe (scope_network s) rest (λ n. n ∷ rest)

-- `_delete_expired`: may the IP be deleted?
unfoldable pub is_expired : Leases → List Network → Obj → Bool
is_expired ls networks o =
    let host = before b'/' o.address in
    if mem host ls.active || mem host ls.reserved
    then false
    else if maybe o.assigned_object_type false (λ t. t == interface_type)
    then false
    else maybe (parse_address host) false (λ a. any (λ n. contains n a) networks)

module _ (ctx : Setup) where
  unfoldable pub annotate_prefix : Scope → Prog (Unit {0})
  annotate_prefix s = maybe (scope_network s) (pure tt) (λ n. do
    found ←
        ask (Request.get Endpoint.prefixes (("prefix", text (show_network ctx.show_num n)) ∷ []))
    maybe found (pure tt)
        (λ p. do set_custom_fields ctx.netbox p (("dhcp_scope", scope_label s) ∷ []); pure tt))

  unfoldable pub reconcile_site : DhcpSite → Dict String → List Scope → List Lease → Prog Leases
  reconcile_site site vendors scopes leases = do
    for_each scopes tt (λ s _. annotate_prefix s)
    for_each leases (record { active = []; reserved = [] }) (sync_lease ctx site vendors)

  unfoldable pub delete_expired : Leases → List Network → Prog (Unit {0})
  delete_expired ls networks = do
    managed ← filter_tagged ctx.netbox Endpoint.ip_addresses dhcp_source []
    for_each managed tt (λ o _.
        if is_expired ls networks o
        then (Netbox.delete ctx.netbox o dhcp_source >>= λ _. pure tt)
        else pure tt)

  abbrev unite : List String → List String → List String
  unite xs [] = xs
  unite xs (y ∷ ys) = unite (add_address y xs) ys

  unfoldable pub add_totals : Leases → List Scope → Totals → Totals
  unfolding add_address
  add_totals ls scopes t = record {
    leases = record {
      active = unite t.leases.active ls.active;
      reserved = unite t.leases.reserved ls.reserved;
    };
    networks = t.networks ++ networks_of scopes;
  }

  abbrev summary : Leases → String
  summary ls =
      ctx.show_num (length ls.active)
      <> " dynamic, "
      <> ctx.show_num (length ls.reserved)
      <> " reserved leases"

  unfoldable pub report : DhcpSite → Bool → String → ℕ → Prog (Unit {0})
  report site ok message started = do
    ended ← ask Request.monotonic
    record_status ctx.dump "dhcp" site.id ok message (ended - started)

  -- The `try` for one site up to the point where its sets and networks are added.
  unfoldable pub fetch_site : DhcpSite → Dict String → Prog (Leases × List Scope)
  fetch_site site vendors = do
    scopes ← ask (Request.dhcp_scopes site.id)
    leases ← ask (Request.dhcp_leases site.id)
    ls ← reconcile_site site vendors scopes leases
    pure (ls, scopes)

  -- One round of the loop over the sites. A site that fails adds nothing.
  unfoldable pub sync_site : Dict String → DhcpSite → Totals → Prog Totals
  sync_site vendors site t = do
    started ← ask Request.monotonic
    outcome ←
        try_catch (do r ← fetch_site site vendors; pure (some r))
          (λ e. do report site false e.text started; pure none)
    maybe outcome (pure t) (λ (ls, scopes). do
      try_catch (report site true (summary ls) started) (λ e. report site false e.text started)
      pure (add_totals ls scopes t))

  unfoldable pub dhcp_run : List DhcpSite → Prog (Unit {0})
  dhcp_run all_sites = do
    let sites = keep (λ s. s.has_technitium && s.dhcp_enabled) all_sites
    if is_nil sites then pure tt else do
      vendors ← ask Request.load_oui
      t ←
          for_each sites (record { leases = record { active = []; reserved = [] }; networks = [] })
            (sync_site vendors)
      if ctx.delete_on_expiry && not (is_nil t.networks)
          then delete_expired t.leases t.networks
          else pure tt
