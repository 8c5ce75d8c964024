-- ===== src/Transfer/Envelope/RoundTrip.antt =====
-- An encrypted export, imported again.
use netbox_monitor.Prelude.{
  String, ◌≡◌, refl, true, false, none, some, [], inl, inr, All, arith, Bool-cases, ltb, length,
  codes, is_empty,
}
use netbox_monitor.Json.{Json, Fields, num, str, bool, obj, get, set, remove}
use netbox_monitor.Config.{config_schema_version, migrate_to_current}
use netbox_monitor.Config.Laws.{settled, get-version}
use netbox_monitor.Transfer.Number.{pos, to_integer}
use netbox_monitor.Transfer.Redact.{secret_paths, payload}
use netbox_monitor.Transfer.Secret.{AllAt}
use netbox_monitor.Transfer.Merge.{merge_redacted}
use netbox_monitor.Transfer.Merge.Plain.{IsReal}
use netbox_monitor.Transfer.Merge.Unchanged.{merge_paths-unchanged}
use netbox_monitor.Transfer.Envelope.{
  Codec, Stamp, ImportResult, min_passphrase, seal, canonical_header, unb64_field, check_kdf, peek,
  unseal, open_envelope, export_config, import_config, ◌>>=◌,
}

-- What the export and the import rely on of the code outside: what is written is read again.
pub record IsLegible (c : Codec) (stamp : Stamp) (word : String) (config : Fields) : Type 0 where
  pub written :
      c.loads (c.dumps (obj (seal c stamp word config))) ≡ some (obj (seal c stamp word config))
  pub read : c.loads (c.dumps (obj config)) ≡ some (obj config)
  pub armoured : (s : String) → c.unb64 (c.b64 s) ≡ some s
  pub opened : (k n m h : String) → c.decrypt k n (c.encrypt k n m h) h ≡ some m

-- what the import of an encrypted export reports
abbrev pub restored : (c : Codec) → Stamp → c.Config → ImportResult c
restored c stamp out = record {
  config = out;
  encrypted = true;
  source_app_version = c.show (str stamp.app_version);
  source_schema = pos config_schema_version;
  migrated_from = none;
  unresolved = [];
}

module _ (c : Codec) (stamp : Stamp) (word : String) (config : Fields)
    (legible : IsLegible c stamp word config) where
  pub peek-seal : peek c (c.dumps (obj (seal c stamp word config))) ≡ inr (seal c stamp word config)
  unfolding peek ◌>>=◌ get set seal to_integer
  peek-seal = rw legible.written refl

  unseal-seal : is_empty word ≡ false → unseal c (seal c stamp word config) (some word) ≡ inr config
  unfolding unseal ◌>>=◌ get set seal remove canonical_header check_kdf to_integer unb64_field
  unseal-seal h = simp (h, legible.armoured, legible.opened, legible.read)

  pub seal-config_schema :
      get "config_schema" (seal c stamp word config) ≡ some (num config_schema_version)
  unfolding get set seal
  seal-config_schema = refl

  pub seal-encrypted : get "encrypted" (seal c stamp word config) ≡ some (bool true)
  unfolding get set seal
  seal-encrypted = refl

  seal-app_version : get "app_version" (seal c stamp word config) ≡ some (str stamp.app_version)
  unfolding get set seal
  seal-app_version = refl

  -- A successful export with a passphrase is the sealed envelope, and the passphrase is not empty.
  import-seal :
      (current : c.Config) (webui : Json) (out : c.Config)
      → is_empty word ≡ false
      → get "schema_version" config ≡ some (num config_schema_version)
      → migrate_to_current config ≡ inr config
      → All (λ p. AllAt IsReal p (obj config)) secret_paths
      → get "webui" (c.dump current) ≡ some webui
      → c.validate (obj (set "webui" webui config)) ≡ some out
      → import_config c (c.dumps (obj (seal c stamp word config))) (some word) current
        ≡ inr (restored c stamp out)
  unfolding import_config ◌>>=◌ open_envelope to_integer merge_redacted
  import-seal current webui out h version settled real ours valid = simp (
    peek-seal,
    seal-config_schema,
    seal-encrypted,
    seal-app_version,
    unseal-seal h,
    version,
    settled,
    ours,
    merge_paths-unchanged c.show secret_paths (obj config) _ real,
    valid,
  )

pub not_empty : (w : String) → ltb (length (codes w)) min_passphrase ≡ false → is_empty w ≡ false
not_empty String.[] h = absurd (ground (arith, h))
not_empty (String.◌∷◌ a w) h = refl

payload-version : (d : Fields) → get "schema_version" (payload d) ≡ some (num config_schema_version)
unfolding payload
payload-version d = get-version (remove "webui" d)

payload-settled : (d : Fields) → migrate_to_current (payload d) ≡ inr (payload d)
unfolding payload
payload-settled d = settled (remove "webui" d)

-- An export with a passphrase, imported with the same passphrase, gives the exported configuration:
-- the document that is validated is the exported one, `webui` apart, which is that of the importing
-- instance, no secret is missing, and no migration is reported. The passphrase is long enough for the
-- export, no secret is the sentinel itself, and the models accept the document.
pub import_config-export_config :
    (c : Codec) (config current out : c.Config) (word blob : String) (stamp : Stamp) (webui : Json)
    → IsLegible c stamp word (payload (c.dump config))
    → export_config c config (some word) stamp ≡ inr blob
    → All (λ p. AllAt IsReal p (obj (payload (c.dump config)))) secret_paths
    → get "webui" (c.dump current) ≡ some webui
    → c.validate (obj (set "webui" webui (payload (c.dump config)))) ≡ some out
    → import_config c blob (some word) current ≡ inr (restored c stamp out)
unfolding export_config
import_config-export_config c config current out word blob stamp webui legible made real ours
      valid =
    elim (Bool-cases (ltb (length (codes word)) min_passphrase)) [
      | inl short ↦ absurd (ground (arith, made, short))
      | inr long ↦
          let eq : c.dumps (obj (seal c stamp word (payload (c.dump config)))) ≡ blob =
            ground (arith, made, long) in
          rw (← eq) (
            import-seal c stamp word (payload (c.dump config)) legible current webui out
              (not_empty word long) (payload-version (c.dump config))
              (payload-settled (c.dump config)) real ours valid)
    ]
