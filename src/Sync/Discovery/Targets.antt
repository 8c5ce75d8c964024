-- ===== src/Sync/Discovery/Targets.antt =====
-- sync/discovery.py: the pure part of `_build_targets`. A network of version 6 is none of interest, and
-- nothing is the outcome where the source raises a `ValueError`.
use netbox_monitor.Prelude.{
  ℕ, zero, suc, ◌+◌, ◌-◌, String, Bool, ◌&&◌, ◌||◌, Option, none, some, List, [], ◌∷◌, ◌++◌, any,
  leb, ◌=?◌, if◌then◌else◌, maybe, truthy, before,
}
use netbox_monitor.Wire.Dhcp.{Scope}
use netbox_monitor.Net.Ipv4.{Network, parse_address, parse_network, block, contains}
use netbox_monitor.Sync.Dhcp.Run.{scope_network}

-- `network_address` and `broadcast_address`
abbrev pub first_of : Network → ℕ
first_of n = n.address

abbrev pub last_of : Network → ℕ
last_of n = n.address + (block n.prefix_len - 1)

abbrev ends_of : Option ℕ → Option ℕ → Option (ℕ × ℕ)
ends_of (some a) (some b) = some (a, b)
ends_of _ _ = none

-- The ranges of the scopes, up to the first whose ends are not addresses.
unfoldable pub ranges_of : List Scope → List (ℕ × ℕ)
ranges_of [] = []
ranges_of (s ∷ ss) =
    let rest = ranges_of ss in
    let by_network = maybe (scope_network s) rest (λ n. (first_of n, last_of n) ∷ rest) in
    maybe (truthy s.starting) by_network (λ start.
      maybe (truthy s.ending) by_network
        (λ end. maybe (ends_of (parse_address start) (parse_address end)) [] (λ r. r ∷ rest)))

abbrev pub in_range : ℕ → ℕ × ℕ → Bool
in_range n (lo, hi) = leb lo n && leb n hi

-- `network.subnet_of(other)`
abbrev pub subnet_of : Network → Network → Bool
subnet_of n other = leb (first_of other) (first_of n) && leb (last_of n) (last_of other)

-- What `ip_network` makes of a text.
pub data Parsed : Type 0 where
  version_4 : Network → Parsed
  version_6 : Parsed
  refused : Parsed

-- with `strict=False`
unfoldable pub parse_loose : (String → Bool) → String → Parsed
parse_loose is_v6 s =
    maybe (parse_network s) (if is_v6 s then version_6 else refused) (λ n. version_4 n)

-- A network with bits of the host is refused.
unfoldable pub parse_strict : (String → Bool) → String → Parsed
parse_strict is_v6 s = maybe (parse_network s) (if is_v6 s then version_6 else refused) (λ n.
    maybe (parse_address (before b'/' s)) refused
      (λ a. if a =? n.address then version_4 n else refused))

-- `exclude`
unfoldable pub excludes_of : (String → Bool) → List String → Option (List Network)
excludes_of is_v6 [] = some []
excludes_of is_v6 (s ∷ ss) =
    let rest = excludes_of is_v6 ss in
    elim (parse_loose is_v6 s) [
      | version_4 n ↦ maybe rest none (λ ns. some (n ∷ ns))
      | version_6 ↦ rest
      | refused ↦ none
    ]

-- `network.hosts()`: how many, and the first
abbrev pub host_count : Network → ℕ
host_count n =
    if n.prefix_len =? 32 then 1 else if n.prefix_len =? 31 then 2 else block n.prefix_len - 2

abbrev pub first_host : Network → ℕ
first_host n = if leb 31 n.prefix_len then n.address else n.address + 1

-- The loop over the hosts of a network: how many are left, the next one, and `count`.
unfoldable pub scan_hosts : (ℕ → Bool) → ℕ → ℕ → ℕ → ℕ → List ℕ
scan_hosts skip limit zero host count = []
scan_hosts skip limit (suc left) host count =
    let rest = scan_hosts skip limit left (host + 1) (if skip host then count else count + 1) in
    if leb limit count then [] else if skip host then rest else host ∷ rest

abbrev pub is_skipped : List (ℕ × ℕ) → List Network → ℕ → Bool
is_skipped ranges exclude host = any (in_range host) ranges || any (λ n. contains n host) exclude

unfoldable pub hosts_of : ℕ → List (ℕ × ℕ) → List Network → Network → List ℕ
hosts_of limit ranges exclude n =
    if any (subnet_of n) exclude
    then []
    else scan_hosts (is_skipped ranges exclude) limit (host_count n) (first_host n) 0

-- One prefix of the loop, with what the prefixes after it give.
unfoldable pub add_hosts :
    ℕ → List (ℕ × ℕ) → List Network → Parsed → Option (List ℕ) → Option (List ℕ)
add_hosts limit ranges exclude (version_4 n) rest =
    maybe rest none (λ ts. some (hosts_of limit ranges exclude n ++ ts))
add_hosts limit ranges exclude version_6 rest = rest
add_hosts limit ranges exclude refused rest = none

unfoldable pub all_targets :
    (String → Bool) → ℕ → List (ℕ × ℕ) → List Network → List String → Option (List ℕ)
all_targets is_v6 limit ranges exclude [] = some []
all_targets is_v6 limit ranges exclude (p ∷ ps) =
    add_hosts limit ranges exclude (parse_strict is_v6 p)
      (all_targets is_v6 limit ranges exclude ps)

-- The targets for the prefixes, the excluded prefixes before them.
unfoldable pub targets_of :
    (String → Bool) → ℕ → List (ℕ × ℕ) → List String → List String → Option (List ℕ)
targets_of is_v6 limit ranges excluded prefixes =
    maybe (excludes_of is_v6 excluded) none
      (λ exclude. all_targets is_v6 limit ranges exclude prefixes)
