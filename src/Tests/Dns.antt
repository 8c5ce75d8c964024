-- ===== src/Tests/Dns.antt =====
-- The DNS reconciliation at a concrete NetBox.
use netbox_monitor.Prelude.{
  String, ◌≡◌, refl, true, false, none, List, [], ◌∷◌, All, Dict, some, lookup, map, arith,
}
use netbox_monitor.Effects.Run.{run}
use netbox_monitor.Sync.Dns.Reconcile.{desired_name, reconcile_names}
use netbox_monitor.Sync.Dns.Guard.{NamesOnly, reconcile_names-trace}
use netbox_monitor.Sync.Dns.Collect.{Setup, DnsSite}
use netbox_monitor.Technitium.{list_zones}
use netbox_monitor.Technitium.Pages.{zones_of, numbers, list_zones-run}
use netbox_monitor.Wire.Dns.{ZonePage}
use netbox_monitor.Wire.Request.{Request, answered}
use netbox_monitor.Tests.World.{world, client}

abbrev forward : Dict String
forward = ("10.0.0.8", "printer.lan") ∷ ("10.0.0.9", "") ∷ []

abbrev ptr : Dict String
ptr = ("10.0.0.8", "other.lan") ∷ ("10.0.0.9", "camera.lan") ∷ []

-- The records A come first, and an empty name counts as none.
forward_first : desired_name forward ptr "10.0.0.8" ≡ some "printer.lan"
unfolding lookup
forward_first = refl

then_ptr : desired_name forward ptr "10.0.0.9" ≡ some "camera.lan"
unfolding lookup
then_ptr = refl

reconcile_names-trace_example :
    All (NamesOnly client forward ptr) (run world (reconcile_names client forward ptr) tt).trace
reconcile_names-trace_example = reconcile_names-trace world tt client forward ptr

abbrev setup : Setup
setup = record {
  netbox = client;
  zones_exclude = "lab" ∷ [];
  fuel = 3;
  numerals = record { from_hex = λ _. none; show_address = λ _. none };
  show_num = λ n. "n";
  dump = λ started ok message took. "";
}

abbrev sites : List DnsSite
sites = (record { id = "lan"; has_technitium = true; dns_enabled = true }) ∷ []

abbrev lan_page : ZonePage
lan_page = record {
  zones = (record { name = "lan"; type = some "Primary"; disabled = false }) ∷ [];
  total_pages = some 3;
}

-- the server of Tests.World has three pages
list_zones-run_example : run world (list_zones 3 "lan") tt ≡ record {
  result = answered (zones_of (λ _. lan_page) 1 3);
  final = tt;
  trace = map (λ p. Request.zones_page "lan" p) (numbers 1 3);
}
list_zones-run_example =
    list_zones-run world "lan" (λ _. lan_page) 3 3 tt
      (record { answers = λ p s. refl; total = λ p. refl }) (omega arith) (omega arith)
