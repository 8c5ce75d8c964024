-- ===== src/Sync/Dhcp/Kept.antt =====
-- Every lease that a site reports is on one of the lists that `_delete_expired` leaves alone.
use netbox_monitor.Prelude.{
  String, ◌≡◌, Bool, true, ◌||◌, Option, none, some, List, [], ◌∷◌, ◌++◌, mem, All, Dict, arith,
  truthy, Option-cases, inl, inr, ◌==◌, eq_iff,
}
use text.Mathlib.TextPositions.{eq_refl}
use netbox_monitor.Wire.Dhcp.{Scope, Lease}
use netbox_monitor.Effects.{for_each}
use netbox_monitor.Effects.Run.{Environment, run}
use netbox_monitor.Effects.Ensures.{
  Ensures, Holds, ensures_pure, Ensures-run, Ensures-then, Ensures-bind, Ensures-weaken,
}
use netbox_monitor.Sync.Dhcp.Lease.{Setup, DhcpSite, Leases, add_address, note_lease, sync_lease}
use netbox_monitor.Sync.Dhcp.Run.{reconcile_site}

abbrev pub is_listed : String → Leases → Bool
is_listed a ls = mem a ls.active || mem a ls.reserved

-- a lease without an address has nothing to list
abbrev pub AddressIsListed : Leases → Option String → Type 0
AddressIsListed ls none = Unit
AddressIsListed ls (some a) = is_listed a ls ≡ true

abbrev pub IsListed : Leases → Lease → Type 0
IsListed ls l = AddressIsListed ls (truthy l.address)

mem-append : (a b : String) (xs : List String) → mem a (xs ++ b ∷ []) ≡ (mem a xs || a == b)
mem-append a b [] = ground arith
mem-append a b (x ∷ xs) = ground (arith, mem-append a b xs)

mem-add_address :
    (a b : String) (xs : List String) → mem a (add_address b xs) ≡ (mem a xs || a == b)
unfolding add_address
mem-add_address a b xs = ground (arith, mem-append a b xs, eq_iff a b)

is_listed-note_lease :
    (l : Lease) (a b : String) (ls : Leases)
    → is_listed a (note_lease l b ls) ≡ (is_listed a ls || a == b)
unfolding note_lease
is_listed-note_lease l a b ls =
    ground (arith, mem-add_address a b ls.active, mem-add_address a b ls.reserved)

-- what is on the lists stays on them
abbrev Grows : Leases → Leases → Type 0
Grows ls more = (a : String) → is_listed a ls ≡ true → is_listed a more ≡ true

IsListed-Grows :
    (ls more : Leases)
    → Grows ls more
    → (address : Option String) → AddressIsListed ls address
    → AddressIsListed more address
IsListed-Grows ls more g none h = tt
IsListed-Grows ls more g (some a) h = g a h

module _ (ctx : Setup) (site : DhcpSite) (vendors : Dict String) where
  sync_lease-IsListed :
      (l : Lease) (ls : Leases)
      → Ensures (λ more. Grows ls more × IsListed more l) (sync_lease ctx site vendors l ls)
  unfolding sync_lease
  sync_lease-IsListed l ls = elim (Option-cases (truthy l.address)) [
    | inl p ↦ rw p (ensures_pure ls ((λ a h. h), tt))
    | inr (a, p) ↦ rw p (
        Ensures-then _ _ λ _. ensures_pure (note_lease l a ls) (
          (λ b h. ground (arith, is_listed-note_lease l b a ls, h)),
          ground (arith, is_listed-note_lease l a a ls, eq_refl a),
        ))
  ]

  leases-IsListed :
      (leases : List Lease) (ls : Leases)
      → Ensures
          (λ more. Grows ls more × All (IsListed more) leases)
          (for_each leases ls (sync_lease ctx site vendors))
  unfolding for_each
  leases-IsListed [] ls = ensures_pure ls ((λ a h. h), tt)
  leases-IsListed (l ∷ leases) ls =
      Ensures-bind {Q = λ more. Grows ls more × IsListed more l} _ _ (sync_lease-IsListed l ls)
        λ mid (g, listed).
          Ensures-weaken _
            (λ more (g', rest).
              ((λ a h. g' a (g a h)), (IsListed-Grows mid more g' (truthy l.address) listed, rest)))
            (leases-IsListed leases mid)

  reconcile_site-Ensures :
      (scopes : List Scope) (leases : List Lease)
      → Ensures (λ ls. All (IsListed ls) leases) (reconcile_site ctx site vendors scopes leases)
  unfolding reconcile_site
  reconcile_site-Ensures scopes leases =
      Ensures-then _ _ λ _. Ensures-weaken _ (λ ls h. h.1) (leases-IsListed leases _)

-- The sets that the reconciliation of a site returns have the address of every lease that has one,
-- whatever NetBox answers and whichever leases fail.
pub reconcile_site-IsListed :
    {S : Type 0} (ctx : Setup) (site : DhcpSite) (vendors : Dict String) (scopes : List Scope)
    (leases : List Lease) (env : Environment S) (s : S)
    → Holds
        (λ ls. All (IsListed ls) leases)
        (run env (reconcile_site ctx site vendors scopes leases) s).result
reconcile_site-IsListed ctx site vendors scopes leases env s =
    Ensures-run env _ s (reconcile_site-Ensures ctx site vendors scopes leases)
