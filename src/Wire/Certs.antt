-- ===== src/Wire/Certs.antt =====
-- The certificate that clients of sync/certs.py get from `cryptography.x509`.
use netbox_monitor.Prelude.{ℕ, String}

-- A name that has no such attribute has the empty text.
pub record Cert : Type 0 where
  pub not_after : ℕ  -- `not_valid_after_utc`
  pub issuer_name : String  -- of the issuer, `COMMON_NAME`
  pub issuer_organization : String
  pub subject_name : String
