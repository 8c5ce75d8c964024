-- ===== src/Tests/Transfer.antt =====
-- The theorems on exports and imports, with a small cipher.
use Prim.Native.Char.{code}
use netbox_monitor.Prelude.{
  String, ◌≡◌, ◌≢◌, refl, true, Option, none, some, [], ◌∷◌, inl, inr, All, ◌==◌, ◌=?◌,
  if◌then◌else◌, maybe, arith, eq_iff, ap, some-injective,
}
use text.Mathlib.TextPositions.{eq_refl}
use netbox_monitor.Json.{Json, Fields, bool, num, str, obj, no_fields, field, get, set, remove}
use netbox_monitor.Transfer.Redact.{key, redacted, secret_paths, payload}
use netbox_monitor.Transfer.Secret.{AllAt}
use netbox_monitor.Transfer.Merge.{
  get_in, merge_redacted, merge_paths, merge_at, change_at, fill, is_none,
}
use netbox_monitor.Transfer.Merge.Plain.{IsReal, IsPlain}
use netbox_monitor.Transfer.Envelope.{
  Codec, Kdf, Stamp, config_transfer, bad_passphrase, export_config, import_config, seal,
  canonical_header,
}
use netbox_monitor.Transfer.Envelope.Imported.{Imported, import_config-Imported}
use netbox_monitor.Transfer.Envelope.RoundTrip.{IsLegible, restored, import_config-export_config}
use netbox_monitor.Transfer.Envelope.Refused.{derived_key, import_config-wrong}

-- The key, each character after a "1", then a "0" and the text.
abbrev wrap : String → String → String
wrap String.[] m = String.◌∷◌ "0" m
wrap (String.◌∷◌ c k) m = String.◌∷◌ "1" (String.◌∷◌ c (wrap k m))

abbrev add_char : Prim.Native.Char.Char → Option (String × String) → Option (String × String)
add_char c o = maybe o none (λ (k, m). some (String.◌∷◌ c k, m))

abbrev unwrap : String → Option (String × String)
unwrap String.[] = none
unwrap (String.◌∷◌ mark String.[]) = if code mark =? b'0' then some ("", "") else none
unwrap (String.◌∷◌ mark (String.◌∷◌ c s)) =
    let rest = add_char c (unwrap s) in
    if code mark =? b'0' then some ("", String.◌∷◌ c s) else rest

unwrap-wrap : (k m : String) → unwrap (wrap k m) ≡ some (k, m)
unwrap-wrap String.[] String.[] = refl
unwrap-wrap String.[] (String.◌∷◌ c m) = refl
unwrap-wrap (String.◌∷◌ c k) m = ap (add_char c) (unwrap-wrap k m)

abbrev open_text : String → String → Option String
open_text wanted text = maybe (unwrap text) none (λ (k, m). if k == wanted then some m else none)

open_text-wrap : (k m : String) → open_text k (wrap k m) ≡ some m
open_text-wrap k m = rw (unwrap-wrap k m) (rw (eq_refl k) refl)

open_text-other : (k k' m : String) → k' ≢ k → open_text k' (wrap k m) ≡ none
open_text-other k k' m h = rw (unwrap-wrap k m) (ground (arith, h, eq_iff k k'))

abbrev stamp : Stamp
stamp = record {
  app_version = "1.4.0";
  created_at = "2024-01-01T00:00:00Z";
  salt = "s";
  nonce = "n";
}

abbrev netbox : String → Fields → Fields
netbox token rest = field "netbox" (obj (field "token" (str token) no_fields)) rest

abbrev webui : Json
webui = obj (field "session_secret" (str "xyz") no_fields)

-- the exporting instance's configuration, and the importing one's
abbrev config : Fields
config = netbox "s3cret" (field "webui" (obj no_fields) no_fields)

abbrev current : Fields
current = netbox "mine" (field "webui" webui no_fields)

abbrev word : String
word = "correct horse"

abbrev exported : Fields
exported = netbox "s3cret" (field "schema_version" (num 2) no_fields)

abbrev envelope : Fields
envelope = field "format" (str "netbox-monitor-config") (
    field "format_version" (num 1) (
      field "app_version" (str "1.4.0") (
        field "config_schema" (num 2) (
          field "encrypted" (bool true) (
            field "created_at" (str "2024-01-01T00:00:00Z") (
              field "kdf"
                (obj (
                  field "name" (str "scrypt") (
                    field "n" (num 32768) (
                      field "r" (num 8) (
                        field "p" (num 1)
                          (field "length" (num 32) (field "salt" (str "s") no_fields)))))))
                (field "cipher"
                  (obj (field "name" (str "aes-256-gcm") (field "nonce" (str "n") no_fields)))
                  (field "ciphertext" (str (wrap word "payload")) no_fields))))))))

abbrev codec : Codec
codec = record {
  Config = Fields;
  dump = λ fs. fs;
  validate = λ v. some (elim v [ obj fs ↦ fs | _ ↦ no_fields ]);
  dumps = λ v. if is_none (get_in "ciphertext" v) then "payload" else "envelope";
  dumps_sorted = λ v. "header";
  loads = λ s. if s == "payload" then some (obj exported) else some (obj envelope);
  b64 = λ s. s;
  unb64 = some;
  derive = λ w s n r p l. w;
  encrypt = λ k n m h. wrap k m;
  decrypt = λ k n m h. open_text k m;
  show = λ v. "?";
}

legible : IsLegible codec stamp word (payload config)
unfolding get set remove seal canonical_header payload
legible = record {
  written = refl;
  read = refl;
  armoured = λ s. refl;
  opened = λ k n m h. open_text-wrap k m;
}

made : export_config codec config (some word) stamp ≡ inr "envelope"
unfolding export_config get set remove seal canonical_header payload
made = refl

at_some : (P : Json → Type 0) (v w : Json) → some v ≡ some w → P v → P w
at_some P v w e h = rw (← some-injective e) h

at_none : {Q : Type 0} (o : Option Json) (w : Json) → o ≡ none → o ≡ some w → Q
at_none o w n e = absurd (ground (arith, n, e))

-- A property of the token, in a document that has no other secret.
token_only :
    (P : Json → Type 0) (token : String) (rest : Fields)
    → get "sites" rest ≡ none
    → get "lldp" rest ≡ none
    → P (str token)
    → All (λ p. AllAt P p (obj (netbox token rest))) secret_paths
unfolding get
token_only P token rest no_sites no_lldp h = (
  (λ v e. at_some (AllAt P (key "token" ∷ [])) _ v e (λ w e'. at_some P (str token) w e' h)),
  (
    (λ v e. at_none _ v no_sites e),
    (
      (λ v e. at_none _ v no_sites e),
      (
        (λ v e. at_none _ v no_sites e),
        (
          (λ v e. at_none _ v no_sites e),
          (
            (λ v e. at_none _ v no_lldp e),
            (
              (λ v e. at_none _ v no_lldp e),
              ((λ v e. at_none _ v no_lldp e), ((λ v e. at_none _ v no_lldp e), tt)),
            ),
          ),
        ),
      ),
    ),
  ),
)

plain : All (λ p. AllAt IsPlain p (obj current)) secret_paths
unfolding get
plain = token_only IsPlain "mine" (field "webui" webui no_fields) refl refl refl

real : All (λ p. AllAt IsReal p (obj (payload config))) secret_paths
unfolding get payload set remove
real = token_only IsReal "s3cret" (field "schema_version" (num 2) no_fields) refl refl refl

ours : get "webui" current ≡ some webui
unfolding get
ours = refl

valid :
    codec.validate (obj (set "webui" webui (payload config)))
    ≡ some (netbox "s3cret" (field "schema_version" (num 2) (field "webui" webui no_fields)))
unfolding payload set remove
valid = refl

import_config-export_config_example :
    import_config codec "envelope" (some word) current
    ≡ inr (
        restored codec stamp
          (netbox "s3cret" (field "schema_version" (num 2) (field "webui" webui no_fields))))
import_config-export_config_example =
    import_config-export_config codec config current _ word "envelope" stamp webui legible made real
      ours valid

-- keys are passphrases here
other_key : derived_key codec stamp "x" ≢ derived_key codec stamp word
other_key h = cc

import_config-wrong_example :
    (import_config codec "envelope" none current ≡ inl config_transfer)
    × (import_config codec "envelope" (some "x") current ≡ inl bad_passphrase)
import_config-wrong_example =
    import_config-wrong codec config current word "x" "envelope" stamp legible
      (λ k k' n m h. open_text-other k k' m) other_key refl made

import_config-Imported_example : Imported codec current (
    restored codec stamp
      (netbox "s3cret" (field "schema_version" (num 2) (field "webui" webui no_fields))))
import_config-Imported_example =
    import_config-Imported codec "envelope" (some word) current _ plain
      import_config-export_config_example

-- a document whose token was redacted

merge_fills :
    merge_redacted codec.show (obj (netbox redacted no_fields)) (obj current)
    ≡ (obj (netbox "mine" no_fields), [])
unfolding merge_redacted merge_paths merge_at change_at fill get
merge_fills = refl

abbrev kdf : Json
kdf = obj (
    field "name" (str "scrypt") (
      field "n" (num 16) (
        field "r" (num 8)
          (field "p" (num 1) (field "length" (num 32) (field "salt" (str "s") no_fields))))))

abbrev kdf_read : Kdf
kdf_read = record { n = 16; r = 8; p = 1; length = 32; salt = "s" }
