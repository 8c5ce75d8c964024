-- ===== src/Sync/Discovery/Bounds.antt =====
-- What a discovery pings: hosts of the prefixes, outside the DHCP ranges and the excluded networks, and
-- no more than `max_hosts_per_prefix` of each prefix.
use netbox_monitor.Prelude.{
  ℕ, ◌*◌, ◌≤◌, ◌<◌, ◌≡◌, String, Bool, true, false, List, All, any, length,
}
use netbox_monitor.Net.Ipv4.{Network, contains}
use netbox_monitor.Sync.Discovery.Targets.{
  version_4, version_6, refused, parse_strict, first_of, last_of, in_range,
}

module _ (skip : ℕ → Bool) (limit : ℕ) where
  -- the hosts that the loop keeps
  abbrev Kept : ℕ → ℕ → ℕ → Type 0
  Kept lo hi h = (skip h ≡ false) × (lo ≤ h) × (h < hi)

-- A host of a prefix, by its network and broadcast addresses.
abbrev pub of_prefix : (String → Bool) → ℕ → String → Bool
of_prefix is_v6 host p = elim (parse_strict is_v6 p) [
  | version_4 n ↦ in_range host (first_of n, last_of n)
  | version_6 ↦ false
  | refused ↦ false
]

pub record IsTarget (is_v6 : String → Bool) (ranges : List (ℕ × ℕ)) (exclude : List Network)
    (prefixes : List String) (host : ℕ) : Type 0 where
  pub not_leased : any (in_range host) ranges ≡ false
  pub not_excluded : any (λ n. contains n host) exclude ≡ false
  pub inside : any (of_prefix is_v6 host) prefixes ≡ true

module _ (ranges : List (ℕ × ℕ)) (exclude : List Network) (limit : ℕ) where
  -- a host of one network
  pub record IsFree (n : Network) (host : ℕ) : Type 0 where
    pub not_leased : any (in_range host) ranges ≡ false
    pub not_excluded : any (λ n. contains n host) exclude ≡ false
    pub inside : in_range host (first_of n, last_of n) ≡ true

  -- a list of targets and the bound on its length
  abbrev Bounded : (String → Bool) → List String → List ℕ → Type 0
  Bounded is_v6 ps ts = All (IsTarget is_v6 ranges exclude ps) ts × (length ts ≤ length ps * limit)
