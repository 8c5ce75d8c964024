-- ===== src/Sync/Dns/Guard.antt =====
-- What the DNS reconciliation of sync/dns.py asks NetBox for.
use netbox_monitor.Prelude.{
  String, false, ◌≡◌, refl, some, [], ◌∷◌, All, Dict, ◌==◌, Option-cases, inl, inr,
}
use netbox_monitor.Wire.Object.{Endpoint, Obj, text}
use netbox_monitor.Wire.Request.{Request}
use netbox_monitor.Effects.Only.{Only, only_pure, Only-if, Only-update, only_rules}
use netbox_monitor.Effects.Run.{Environment, run, All-trace}
use netbox_monitor.Netbox
use netbox_monitor.Netbox.{Client, journal}
use netbox_monitor.Sync.Dns.Reconcile.{
  host_of, current_name, desired_name, reconcile_name, reconcile_names,
}

-- An update sets `dns_name` alone, to the name that the DNS has for the address, which is not the one
-- that the object has.
abbrev pub NamesOnly : Client → Dict String → Dict String → Request → Type 0
NamesOnly c forward ptr (Request.create e d) = (c.dry_run ≡ false) × (e ≡ Endpoint.journal_entries)
NamesOnly c forward ptr (Request.delete o) = ⊥
NamesOnly c forward ptr (Request.update o d) =
    (c.dry_run ≡ false)
    × (name : String) × (desired_name forward ptr (host_of o) ≡ some name)
    × ((current_name o == name) ≡ false)
    × (d ≡ ("dns_name", text name) ∷ [])
NamesOnly c forward ptr (Request.zone_records site zone) = ⊥
NamesOnly c forward ptr (Request.collect d h u w k) = ⊥
NamesOnly c forward ptr (Request.collect_macs d h u w k) = ⊥
NamesOnly c forward ptr _ = Unit {0}

module _ (c : Client) (forward ptr : Dict String) where
  journal-NamesOnly : (o : Obj) (x k : String) → Only (NamesOnly c forward ptr) (journal c o x k)
  unfolding journal
  journal-NamesOnly o x k =
      search (only_rules, refl {A = Endpoint} {a = Endpoint.journal_entries}) depth 8

  update-NamesOnly :
      (o : Obj) (name : String)
      → desired_name forward ptr (host_of o) ≡ some name
      → (current_name o == name) ≡ false
      → Only (NamesOnly c forward ptr) (Netbox.update c o (("dns_name", text name) ∷ []))
  unfolding Netbox.update
  update-NamesOnly o name wanted differs =
      Only-if _ _ _ (λ d. only_pure _) (λ d. Only-update _ _ (d, name, wanted, differs, refl))

  reconcile_name-NamesOnly :
      (o : Obj) → Only (NamesOnly c forward ptr) (reconcile_name c forward ptr o)
  unfolding reconcile_name
  reconcile_name-NamesOnly o = elim (Option-cases (desired_name forward ptr (host_of o))) [
    | inl p ↦ rw p (only_pure tt)
    | inr (name, p) ↦
        rw p (search (only_rules, update-NamesOnly o name p, journal-NamesOnly) depth 8)
  ]

  pub reconcile_names-NamesOnly : Only (NamesOnly c forward ptr) (reconcile_names c forward ptr)
  unfolding reconcile_names
  reconcile_names-NamesOnly = search (only_rules, tt, reconcile_name-NamesOnly) depth 8

-- In every run of the DNS reconciliation, an IP is written only to set its `dns_name`, to the name that
-- the records A and AAAA, or else the records PTR, have for its address, where it has another one;
-- nothing is created but journal entries, nothing is deleted, nothing is written in dry-run mode, no
-- zone is read, and no session with a switch is opened.
pub reconcile_names-trace :
    {S : Type 0} (env : Environment S) (s : S) (c : Client) (forward ptr : Dict String)
    → All (NamesOnly c forward ptr) (run env (reconcile_names c forward ptr) s).trace
reconcile_names-trace env s c forward ptr =
    All-trace env (NamesOnly c forward ptr) _ s (reconcile_names-NamesOnly c forward ptr)
