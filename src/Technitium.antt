-- ===== src/Technitium.antt =====
-- clients/technitium.py: `TechnitiumClient.list_zones`. A request is one call of `_call`, with what
-- its answer has under the keys that are read, or the exception that it raises. The `while` loop runs
-- on fuel: where a server goes on raising its number of pages, the source goes on too.
pub mod Pages
use netbox_monitor.Prelude.{
  ℕ, zero, suc, ◌+◌, String, List, [], ◌++◌, maybe, truthy_num, leb, if◌then◌else◌,
}
use netbox_monitor.Wire.Dns.{Zone}
use netbox_monitor.Wire.Request.{Request, Exn, ExnClass}
use netbox_monitor.Effects.{Prog, pure, raise, ask, ◌>>=◌}

-- not an exception of the source: the pages that the model reads are used up
abbrev pub out_of_fuel : Exn
out_of_fuel = record { class = ExnClass.other; type_name = "OutOfFuel"; text = "" }

-- The loop from a page on, with the zones of the pages before it.
unfoldable pub zones_from : String → ℕ → ℕ → List Zone → Prog (List Zone)
zones_from site zero page zones = raise out_of_fuel
zones_from site (suc fuel) page zones = do
  resp ← ask (Request.zones_page site page)
  let all = zones ++ resp.zones
  let go_on = zones_from site fuel (page + 1) all
  maybe (truthy_num resp.total_pages) (pure all)
      (λ total. if leb total page then pure all else go_on)

unfoldable pub list_zones : ℕ → String → Prog (List Zone)
list_zones fuel site = zones_from site fuel 1 []
