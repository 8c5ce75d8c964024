-- ===== src/Sync/Lldp/Crawl/Bounds.antt =====
-- The crawl polls at most `max_switches` switches, and opens at most `max_auth_attempts` sessions
-- with any one host.
use netbox_monitor.Prelude.{ℕ, String, ◌≡◌, false, List, ◌∷◌, ◌==◌, mem, if◌then◌else◌}
use netbox_monitor.Wire.Request.{Request}
use netbox_monitor.Effects.Ensures.{Ensures}
use netbox_monitor.Effects.AtMost.{AtMost}
use netbox_monitor.Sync.Lldp.Poll.{Poll}
use netbox_monitor.Sync.Lldp.Poll.Bounds.{is_session}
use netbox_monitor.Effects.Only.{Only}

-- no session is opened with the host
abbrev Quiet : String → Request → Type 0
Quiet g r = is_session g r ≡ false

-- The sessions that may still be opened with a host.
abbrev left : ℕ → String → List String → ℕ
left cap g ips = if mem g ips then 0 else cap

left_elsewhere :
    (cap : ℕ) (g h : String) (ips : List String)
    → (g == h) ≡ false
    → left cap g (h ∷ ips) ≡ left cap g ips
left_elsewhere cap g h ips other = rw other
