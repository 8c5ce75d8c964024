-- ===== src/Transfer/Envelope.antt =====
-- config_transfer.py: `export_config`, `peek`, `_check_kdf` and `import_config`. The ciphers, base64, the
-- text of a document and the models that validate a configuration are the parameter `Codec`.
pub mod Returns
pub mod Bounds
pub mod Imported
pub mod RoundTrip
pub mod Refused
use Prim.Native.Nat.{bit_and}
use netbox_monitor.Prelude.{
  ℕ, ◌-◌, ◌*◌, String, Bool, true, false, not, ◌&&◌, ◌||◌, Option, none, some, List, [], ◌∷◌, ◌⊎◌,
  inl, inr, ◌==◌, ◌=?◌, ltb, if◌then◌else◌, maybe, either, is_some, is_empty, length, codes,
}
use netbox_monitor.Json.{
  Json, Fields, null, bool, num, str, obj, no_fields, field, get, set, remove, is_true,
}
use netbox_monitor.Config.{config_schema_version, MigrationError, migrate_to_current}
use netbox_monitor.Transfer.Number.{ℤ, pos, to_integer, is_above, is_same, within}
use netbox_monitor.Transfer.Redact.{redact, payload}
use netbox_monitor.Transfer.Merge.{get_in, merge_redacted}

-- What an export or an import raises.
pub data TransferError : Type 0 where
  config_transfer : TransferError  -- `ConfigTransferError`
  bad_passphrase : TransferError
  unsupported_format : TransferError
  schema_too_new : TransferError
  migration : MigrationError → TransferError
  invalid : TransferError  -- the models refuse the configuration
  uncaught : TransferError  -- an exception of `int`, of the decoding, or of an attribute

-- `try_` for results: go on with a value, or stop at an error.
infixl 10 ◌>>=◌ ◌>>◌
unfoldable pub ◌>>=◌ :
    {A B : Type 0} → TransferError ⊎ A → (A → TransferError ⊎ B) → TransferError ⊎ B
m >>= f = either m inl f

abbrev pub ◌>>◌ : {B : Type 0} → TransferError ⊎ Unit {0} → TransferError ⊎ B → TransferError ⊎ B
m >> n = m >>= λ _. n

-- `if not test: raise e`
abbrev pub require : Bool → TransferError → TransferError ⊎ Unit {0}
require true e = inr tt
require false e = inl e

abbrev pub given : {A : Type 0} → Option A → TransferError → TransferError ⊎ A
given none e = inl e
given (some a) e = inr a

-- The code that is not this program's. Bytes are texts of one character each.
pub record Codec : Type 1 where
  pub Config : Type 0
  pub dump : Config → Fields  -- `model_dump(mode="json")`
  pub validate : Json → Option Config  -- `AppConfig.model_validate`
  pub dumps : Json → String  -- `json.dumps(…)`, encoded
  pub dumps_sorted : Json → String  -- with `sort_keys` and no spaces
  pub loads : String → Option Json  -- decoded, and `json.loads`
  pub b64 : String → String
  pub unb64 : String → Option String
  pub derive : String → String → ℕ → ℕ → ℕ → ℕ → String  -- scrypt: passphrase, salt, n, r, p, length
  pub encrypt : String → String → String → String → String  -- AES-GCM: key, nonce, text, header
  pub decrypt : String → String → String → String → Option String  -- nothing for `InvalidTag`
  pub show : Json → String

abbrev pub format : String
format = "netbox-monitor-config"

abbrev pub format_version : ℕ
format_version = 1

abbrev pub min_passphrase : ℕ
min_passphrase = 12

abbrev pub max_n : ℕ
max_n = 1048576

abbrev pub max_r : ℕ
max_r = 32

abbrev pub max_p : ℕ
max_p = 16

abbrev pub key_len : ℕ
key_len = 32

abbrev pub scrypt_n : ℕ
scrypt_n = 32768

abbrev pub scrypt_r : ℕ
scrypt_r = 8

abbrev pub scrypt_p : ℕ
scrypt_p = 1

-- The parameters that a key is derived by.
pub record Kdf : Type 0 where
  pub n : ℕ
  pub r : ℕ
  pub p : ℕ
  pub length : ℕ
  pub salt : String

pub record Stamp : Type 0 where
  pub app_version : String
  pub created_at : String
  pub salt : String  -- `os.urandom(16)`
  pub nonce : String  -- `os.urandom(12)`

-- The header: the fields before `config` or `kdf`.
abbrev pub header : Stamp → Bool → Fields → Fields
header stamp encrypted rest = field "format" (str format) (
    field "format_version" (num format_version) (
      field "app_version" (str stamp.app_version) (
        field "config_schema" (num config_schema_version)
          (field "encrypted" (bool encrypted) (field "created_at" (str stamp.created_at) rest)))))

-- `bool(v)`, `v == text`
abbrev is_text : String → Json → Bool
is_text t (str s) = s == t
is_text t _ = false

abbrev pub as_dict : Json → TransferError → TransferError ⊎ Fields
as_dict (obj fs) e = inr fs
as_dict v e = inl e

module _ (c : Codec) where
  abbrev pub kdf_fields : Stamp → Json
  kdf_fields stamp = obj (
      field "name" (str "scrypt") (
        field "n" (num scrypt_n) (
          field "r" (num scrypt_r) (
            field "p" (num scrypt_p)
              (field "length" (num key_len) (field "salt" (str (c.b64 stamp.salt)) no_fields))))))

  -- the envelope before the text is in it
  abbrev pub sealed_header : Stamp → Fields
  sealed_header stamp = header stamp true (
      field "kdf" (kdf_fields stamp) (
        field "cipher"
          (obj
            (field "name" (str "aes-256-gcm") (field "nonce" (str (c.b64 stamp.nonce)) no_fields)))
          no_fields))

  -- `_canonical_header`
  unfoldable pub canonical_header : Fields → String
  canonical_header envelope = c.dumps_sorted (obj (remove "ciphertext" envelope))

  unfoldable pub seal : Stamp → String → Fields → Fields
  seal stamp passphrase config =
      let key = c.derive passphrase stamp.salt scrypt_n scrypt_r scrypt_p key_len in
      let text =
        c.encrypt key stamp.nonce (c.dumps (obj config)) (canonical_header (sealed_header stamp)) in
      set "ciphertext" (str (c.b64 text)) (sealed_header stamp)

  unfoldable pub export_config : c.Config → Option String → Stamp → TransferError ⊎ String
  export_config config passphrase stamp =
      maybe passphrase
        (inr (
          c.dumps (
            obj (
              header stamp false
                (field "config" (redact (obj (payload (c.dump config)))) no_fields)))))
        (λ word.
          if ltb (length (codes word)) min_passphrase
          then inl config_transfer
          else inr (c.dumps (obj (seal stamp word (payload (c.dump config))))))

  -- `_unb64`
  unfoldable pub unb64_field : Json → TransferError ⊎ String
  unb64_field (str s) = given (c.unb64 s) unsupported_format
  unb64_field _ = inl unsupported_format

  -- `_check_kdf`
  unfoldable pub check_kdf : Json → TransferError ⊎ Kdf
  check_kdf kdf = do
    require (is_text "scrypt" (get_in "name" kdf)) unsupported_format
    n ← given (to_integer (get_in "n" kdf)) unsupported_format
    r ← given (to_integer (get_in "r" kdf)) unsupported_format
    p ← given (to_integer (get_in "p" kdf)) unsupported_format
    len ← given (to_integer (get_in "length" kdf)) unsupported_format
    n' ← given (within max_n n) unsupported_format
    require (bit_and n' (n' - 1) =? 0) unsupported_format
    r' ← given (within max_r r) unsupported_format
    p' ← given (within max_p p) unsupported_format
    require (is_same len (pos key_len)) unsupported_format
    salt ← unb64_field (get_in "salt" kdf)
    inr (record { n = n'; r = r'; p = p'; length = key_len; salt = salt })

  -- `int(d.get(key, default))`
  abbrev int_at : String → ℤ → Fields → TransferError ⊎ ℤ
  int_at key default d = maybe (get key d) (inr default) (λ v. given (to_integer v) uncaught)

  unfoldable pub peek : String → TransferError ⊎ Fields
  peek blob = do
    document ← given (c.loads blob) unsupported_format
    envelope ← as_dict document unsupported_format
    require (is_text format (get_in "format" (obj envelope))) unsupported_format
    version ← int_at "format_version" (pos 0) envelope
    require (not (is_above format_version version)) unsupported_format
    inr envelope

  -- what is inside an encrypted export
  unfoldable pub unseal : Fields → Option String → TransferError ⊎ Fields
  unseal envelope passphrase = do
    word ← given passphrase config_transfer
    require (not (is_empty word)) config_transfer
    kdf ← check_kdf (get_in "kdf" (obj envelope))
    let cipher = get_in "cipher" (obj envelope)
    require (is_text "aes-256-gcm" (get_in "name" cipher)) unsupported_format
    nonce ← unb64_field (get_in "nonce" cipher)
    ciphertext ← unb64_field (get_in "ciphertext" (obj envelope))
    let key = c.derive word kdf.salt kdf.n kdf.r kdf.p kdf.length
    text ← given (c.decrypt key nonce ciphertext (canonical_header envelope)) bad_passphrase
    document ← given (c.loads text) uncaught
    as_dict document uncaught

  unfoldable pub open_envelope : Fields → Option String → TransferError ⊎ Fields
  open_envelope envelope passphrase =
      if is_true (get_in "encrypted" (obj envelope))
      then unseal envelope passphrase
      else as_dict (get_in "config" (obj envelope)) unsupported_format

  pub record ImportResult : Type 0 where
    pub config : c.Config
    pub encrypted : Bool
    pub source_app_version : String
    pub source_schema : ℤ
    pub migrated_from : Option ℤ
    pub unresolved : List String

  abbrev pub migrated_to : MigrationError ⊎ Fields → TransferError ⊎ Fields
  migrated_to (inl e) = inl (migration e)
  migrated_to (inr d) = inr d

  -- the document that is validated, after the merge
  abbrev pub with_webui : Json → Json → Json
  with_webui webui (obj fs) = obj (set "webui" webui fs)
  with_webui webui v = v

  unfoldable pub import_config : String → Option String → c.Config → TransferError ⊎ ImportResult
  import_config blob passphrase current = do
    envelope ← peek blob
    source ← int_at "config_schema" (pos config_schema_version) envelope
    require (not (is_above config_schema_version source)) schema_too_new
    raw ← open_envelope envelope passphrase
    inner ← int_at "schema_version" source raw
    require (is_same inner source) unsupported_format
    migrated ← migrated_to (migrate_to_current raw)
    let (merged, unresolved) = merge_redacted c.show (obj migrated) (obj (c.dump current))
    webui ← given (get "webui" (c.dump current)) uncaught
    config ← given (c.validate (with_webui webui merged)) invalid
    inr (record {
      config = config;
      encrypted = is_true (get_in "encrypted" (obj envelope));
      source_app_version = maybe (get "app_version" envelope) "unknown" c.show;
      source_schema = source;
      migrated_from = if is_same source (pos config_schema_version) then none else some source;
      unresolved = unresolved;
    })
