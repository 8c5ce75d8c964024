-- ===== src/Technitium/Pages.antt =====
-- The zones that `list_zones` gives, from a server that says of every page how many there are.
use netbox_monitor.Prelude.{
  ℕ, zero, suc, ◌+◌, ◌≤◌, ◌≡◌, refl, String, List, [], ◌∷◌, ◌++◌, some, map, truthy_num, leb, ◌=?◌,
  arith, true, false,
}
use mathlib.Core.List.{append-nil, append_assoc}
use netbox_monitor.Wire.Dns.{Zone, ZonePage}
use netbox_monitor.Wire.Request.{Request, answered}
use netbox_monitor.Effects.{ask, ◌>>=◌}
use netbox_monitor.Effects.Run.{Environment, run}
use netbox_monitor.Technitium.{zones_from, list_zones}

-- The pages from one on.
abbrev pub numbers : ℕ → ℕ → List ℕ
numbers page zero = []
numbers page (suc n) = page ∷ numbers (page + 1) n

-- The zones of these pages, in order.
abbrev pub zones_of : (ℕ → ZonePage) → ℕ → ℕ → List Zone
zones_of pages page zero = []
zones_of pages page (suc n) = (pages page).zones ++ zones_of pages (page + 1) n

-- A server with so many pages, which do not change while they are read.
pub record Serves {S : Type 0} (env : Environment S) (site : String) (pages : ℕ → ZonePage) (n : ℕ)
    : Type 0 where
  pub answers : (p : ℕ) (s : S) → env.answer (Request.zones_page site p) s ≡ (answered (pages p), s)
  pub total : (p : ℕ) → (pages p).total_pages ≡ some n

module _ {S : Type 0} (env : Environment S) (site : String) (pages : ℕ → ZonePage) (n : ℕ)
    (serves : Serves env site pages n) where
  zones_from-run :
      (left fuel page : ℕ) (zones : List Zone) (s : S)
      → page + left ≡ n
      → 1 ≤ page
      → suc left ≤ fuel
      → run env (zones_from site fuel page zones) s ≡ record {
        result = answered (zones ++ zones_of pages page (suc left));
        final = s;
        trace = map (λ p. Request.zones_page site p) (numbers page (suc left));
      }
  unfolding zones_from run ◌>>=◌ ask
  zones_from-run zero (suc fuel) page zones s e one enough =
      let some_pages : (n =? 0) ≡ false = ground arith in
      let last : leb n page ≡ true = ground arith in
      rw (serves.answers page s, serves.total page, truthy_num, some_pages, last)
        (rw (append-nil (pages page).zones) refl)
  zones_from-run (suc left) (suc fuel) page zones s e one enough =
      let some_pages : (n =? 0) ≡ false = ground arith in
      let more : leb n page ≡ false = ground arith in
      rw
        (
          serves.answers page s,
          serves.total page,
          truthy_num,
          some_pages,
          more,
          zones_from-run left fuel (page + 1) (zones ++ (pages page).zones) s (omega arith)
              (omega arith) (omega arith),
        )
        (rw (append_assoc zones (pages page).zones (zones_of pages (page + 1) (suc left))) refl)
  zones_from-run left zero page zones s e one enough = absurd (omega arith)

-- From a server that answers every request for a page, with the same zones whenever it is asked and
-- with the same number of pages on each, of which there is at least one, `list_zones` returns, with
-- the zones of all the pages in their order, and asks for each page once and for nothing else. Fuel
-- for as many rounds as there are pages is enough.
pub list_zones-run :
    {S : Type 0} (env : Environment S) (site : String) (pages : ℕ → ZonePage) (n fuel : ℕ) (s : S)
    → Serves env site pages n
    → 1 ≤ n
    → n ≤ fuel
    → run env (list_zones fuel site) s ≡ record {
      result = answered (zones_of pages 1 n);
      final = s;
      trace = map (λ p. Request.zones_page site p) (numbers 1 n);
    }
unfolding list_zones
list_zones-run env site pages (suc n) fuel s serves some_page enough =
    zones_from-run env site pages (suc n) serves n fuel 1 [] s (omega arith) (omega arith)
      (omega arith)
list_zones-run env site pages zero fuel s serves some_page enough = absurd (omega arith)
