-- ===== src/Sync/Certs/Expiry.antt =====
-- What the certificate module makes of the certificates of a host.
use netbox_monitor.Prelude.{ℕ, ◌+◌, ◌*◌, ◌≤◌, ◌<◌, ◌≡◌, List, [], ◌∷◌, All, ◌⊎◌}
use netbox_monitor.Wire.Certs.{Cert}
use netbox_monitor.Sync.Certs.{Health, expired, expiring, healthy}

-- Seconds, where the source has days.
pub data Says (expiring_days expiry now : ℕ) : Health → Type 0 where
  says_expired :
      (n : ℕ)
      → expiry < now
      → expiry + n * 86400 < now + 86400
      → now ≤ expiry + n * 86400
      → Says expiring_days expiry now (expired n)
  says_expiring :
      (n : ℕ)
      → now + n * 86400 ≤ expiry
      → expiry < now + (n + 1) * 86400
      → n ≤ expiring_days
      → Says expiring_days expiry now (expiring n)
  says_healthy : now + (expiring_days + 1) * 86400 ≤ expiry → Says expiring_days expiry now healthy

-- one of the list
abbrev pub IsIn : Cert → List Cert → Type 0
IsIn c [] = ⊥
IsIn c (d ∷ ds) = (c ≡ d) ⊎ IsIn c ds

-- One of the certificates, of which none expires before it.
pub record IsClosest (c : Cert) (certs : List Cert) : Type 0 where
  pub is_in : IsIn c certs
  pub is_first : All (λ d. c.not_after ≤ d.not_after) certs
