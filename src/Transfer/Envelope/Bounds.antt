-- ===== src/Transfer/Envelope/Bounds.antt =====
-- The work that an import takes on: the limits of `_check_kdf`, which come before the key is derived.
use Prim.Native.Nat.{bit_and}
use netbox_monitor.Prelude.{◌-◌, ◌≤◌, ◌<◌, ◌≡◌}
use netbox_monitor.Json.{Json}
use netbox_monitor.Transfer.Envelope.Returns.{Returns}
use netbox_monitor.Transfer.Envelope.{Kdf, max_n, max_r, max_p, key_len}

-- The limits of the parameters.
pub record IsBounded (k : Kdf) : Type 0 where
  pub n_pos : 0 < k.n
  pub n_max : k.n ≤ max_n
  pub n_power : bit_and k.n (k.n - 1) ≡ 0
  pub r_pos : 0 < k.r
  pub r_max : k.r ≤ max_r
  pub p_pos : 0 < k.p
  pub p_max : k.p ≤ max_p
  pub length_exact : k.length ≡ key_len
