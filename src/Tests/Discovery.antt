-- ===== src/Tests/Discovery.antt =====
-- Discovery on a small network, and its choice of targets.
use netbox_monitor.Prelude.{ℕ, String, Bool, false, List, [], ◌∷◌}
use netbox_monitor.Net.Ipv4.{Network}

abbrev no_v6 : String → Bool
no_v6 _ = false

abbrev leased : List (ℕ × ℕ)
leased = (167772162, 167772163) ∷ []

abbrev excluded : List String
excluded = "10.0.0.5" ∷ []

abbrev prefixes : List String
prefixes = "10.0.0.0/29" ∷ []

abbrev excluded_networks : List Network
excluded_networks = record { address = 167772165; prefix_len = 32 } ∷ []
