-- ===== src/Transfer/Envelope/Refused.antt =====
-- An encrypted export, imported without its passphrase.
use netbox_monitor.Prelude.{
  String, ◌≡◌, ◌≢◌, refl, false, none, some, inl, inr, arith, Bool-cases, ltb, length, codes,
  is_empty,
}
use netbox_monitor.Json.{Fields, obj, get, set, remove}
use netbox_monitor.Transfer.Number.{to_integer}
use netbox_monitor.Transfer.Redact.{payload}
use netbox_monitor.Transfer.Envelope.{
  Codec, Stamp, config_transfer, bad_passphrase, min_passphrase, seal, sealed_header,
  canonical_header, scrypt_n, scrypt_r, scrypt_p, key_len, unb64_field, check_kdf, unseal,
  open_envelope, export_config, import_config, ◌>>=◌,
}
use netbox_monitor.Transfer.Envelope.RoundTrip.{
  IsLegible, peek-seal, seal-config_schema, seal-encrypted,
}

-- What a passphrase gives: its key for an export.
abbrev pub derived_key : Codec → Stamp → String → String
derived_key c stamp word = c.derive word stamp.salt scrypt_n scrypt_r scrypt_p key_len

module _ (c : Codec) (stamp : Stamp) (word : String) (config : Fields)
    (legible : IsLegible c stamp word config) where
  unseal-wrong :
      (other : String)
      → ((k k' n m h : String) → k' ≢ k → c.decrypt k' n (c.encrypt k n m h) h ≡ none)
      → derived_key c stamp other ≢ derived_key c stamp word
      → is_empty other ≡ false
      → unseal c (seal c stamp word config) (some other) ≡ inl bad_passphrase
  unfolding unseal ◌>>=◌ get set seal remove canonical_header check_kdf to_integer unb64_field
  unseal-wrong other authentic differs h = simp (
    h,
    legible.armoured,
    authentic (derived_key c stamp word) (derived_key c stamp other) stamp.nonce
        (c.dumps (obj config)) (canonical_header c (sealed_header c stamp)) differs,
  )

  unseal-none : unseal c (seal c stamp word config) none ≡ inl config_transfer
  unfolding unseal ◌>>=◌
  unseal-none = refl

  import-wrong :
      (other : String) (current : c.Config)
      → ((k k' n m h : String) → k' ≢ k → c.decrypt k' n (c.encrypt k n m h) h ≡ none)
      → derived_key c stamp other ≢ derived_key c stamp word
      → is_empty other ≡ false
      → (import_config c (c.dumps (obj (seal c stamp word config))) none current
          ≡ inl config_transfer)
        × (import_config c (c.dumps (obj (seal c stamp word config))) (some other) current
            ≡ inl bad_passphrase)
  unfolding import_config ◌>>=◌ open_envelope to_integer
  import-wrong other current authentic differs h = (
    simp (
      peek-seal c stamp word config legible,
      seal-config_schema c stamp word config legible,
      seal-encrypted c stamp word config legible,
      unseal-none,
    ),
    simp (
      peek-seal c stamp word config legible,
      seal-config_schema c stamp word config legible,
      seal-encrypted c stamp word config legible,
      unseal-wrong other authentic differs h,
    ),
  )

-- An export with a passphrase is not imported without one, and with another passphrase, which gives
-- another key, the import says that the passphrase is wrong. The cipher is taken to refuse a text
-- that was encrypted by another key.
pub import_config-wrong :
    (c : Codec) (config current : c.Config) (word other blob : String) (stamp : Stamp)
    → IsLegible c stamp word (payload (c.dump config))
    → ((k k' n m h : String) → k' ≢ k → c.decrypt k' n (c.encrypt k n m h) h ≡ none)
    → derived_key c stamp other ≢ derived_key c stamp word
    → is_empty other ≡ false
    → export_config c config (some word) stamp ≡ inr blob
    → (import_config c blob none current ≡ inl config_transfer)
      × (import_config c blob (some other) current ≡ inl bad_passphrase)
unfolding export_config
import_config-wrong c config current word other blob stamp legible authentic differs h made =
    elim (Bool-cases (ltb (length (codes word)) min_passphrase)) [
      | inl short ↦ absurd (ground (arith, made, short))
      | inr long ↦
          let eq : c.dumps (obj (seal c stamp word (payload (c.dump config)))) ≡ blob =
            ground (arith, made, long) in
          rw (← eq) (
            import-wrong c stamp word (payload (c.dump config)) legible other current authentic
              differs h)
    ]
