-- ===== src/Transfer/Envelope/Imported.antt =====
-- The configuration that an import validates: it has this instance's `webui` section, and no sentinel.
use netbox_monitor.Prelude.{
  String, ◌≡◌, refl, sym, ap, ◌∙◌, Option, some, List, [], ◌∷◌, inr, All, arith, eq_iff,
}
use netbox_monitor.Json.{Json, Fields, obj, get, set, get-set}
use netbox_monitor.Transfer.Redact.{Step, key, every, secret_paths}
use netbox_monitor.Transfer.Secret.{AllAt}
use netbox_monitor.Transfer.Hidden.{Misses, sections}
use netbox_monitor.Transfer.Merge.{merge_at, merge_paths, merge_redacted}
use netbox_monitor.Transfer.Merge.Plain.{IsReal, IsPlain}
use netbox_monitor.Transfer.Merge.Filled.{merge_redacted-IsReal}
use netbox_monitor.Transfer.Envelope.{Codec, ImportResult, import_config, with_webui}
use netbox_monitor.Transfer.Envelope.Returns.{
  Returns, Returns-bind, Returns-given, Returns-require, Returns-inr,
}

-- A merge of a dictionary is a dictionary.
module _ (show : Json → String) where
  merge_at-dict :
      (q prefix : List Step) (trail : String) (fs : Fields) (cur : Json)
      → (gs : Fields) × ((merge_at show q prefix trail (obj fs) cur).0 ≡ obj gs)
  unfolding merge_at
  merge_at-dict [] prefix trail fs cur = (fs, refl)
  merge_at-dict (every ∷ q) prefix trail fs cur = (_, refl)
  merge_at-dict (key k ∷ []) prefix trail fs cur = (_, refl)
  merge_at-dict (key k ∷ s ∷ q) prefix trail fs cur = (_, refl)

  merge_paths-dict :
      (ps : List (List Step)) (fs : Fields) (cur : Json)
      → (gs : Fields) × ((merge_paths show ps (obj fs) cur).0 ≡ obj gs)
  unfolding merge_paths
  merge_paths-dict [] fs cur = (fs, refl)
  merge_paths-dict (p ∷ ps) fs cur =
      let (gs, e) = merge_at-dict p [] "" fs cur in rw e (merge_paths-dict ps gs cur)

-- A section that no path goes through may be replaced.
set-IsReal :
    (k : String) (w : Json) (fs : Fields) (p : List Step)
    → Misses k p
    → AllAt IsReal p (obj fs)
    → AllAt IsReal p (obj (set k w fs))
set-IsReal k w fs [] m h = tt
set-IsReal k w fs (every ∷ p) m h = absurd m
set-IsReal k w fs (key j ∷ []) m h =
    λ v e. h v (ground (arith, e, get-set k j w fs, m, eq_iff k j, eq_iff j k))
set-IsReal k w fs (key j ∷ s ∷ p) m h =
    λ v e. h v (ground (arith, e, get-set k j w fs, m, eq_iff k j, eq_iff j k))

set-All :
    (k : String) (w : Json) (fs : Fields) (ps : List (List Step))
    → All (Misses k) ps
    → All (λ p. AllAt IsReal p (obj fs)) ps
    → All (λ p. AllAt IsReal p (obj (set k w fs))) ps
set-All k w fs [] m h = tt
set-All k w fs (p ∷ ps) m h = (set-IsReal k w fs p m.0 h.0, set-All k w fs ps m.1 h.1)

-- What is known of the document that a successful import validated.
pub record Imported (c : Codec) (current : c.Config) (r : ImportResult c) : Type 0 where
  pub document : Fields
  pub validated : c.validate (obj document) ≡ some r.config
  pub webui : get "webui" document ≡ get "webui" (c.dump current)
  pub resolved : All (λ p. AllAt IsReal p (obj document)) secret_paths

module _ (c : Codec) (current : c.Config)
    (plain : All (λ p. AllAt IsPlain p (obj (c.dump current))) secret_paths) where
  import_config-Returns :
      (blob : String) (passphrase : Option String)
      → Returns (Imported c current) (import_config c blob passphrase current)
  unfolding import_config merge_redacted
  import_config-Returns blob passphrase = Returns-bind _ _ _ λ envelope _.
      Returns-bind _ _ _ λ source _. Returns-require _ _ _ _ λ _. Returns-bind _ _ _ λ raw _.
        Returns-bind _ _ _ λ inner _. Returns-require _ _ _ _ λ _. Returns-bind _ _ _ λ migrated _.
          Returns-given _ _ _ _ λ webui is_ours. Returns-given _ _ _ _ λ config valid.
            let (gs, e) = merge_paths-dict c.show secret_paths migrated (obj (c.dump current)) in
            let real = merge_redacted-IsReal c.show (obj migrated) (obj (c.dump current)) plain in
            record {
              document = set "webui" webui gs;
              validated = ap (λ m. c.validate (with_webui c webui m)) (sym e) ∙ valid;
              webui = get-set "webui" "webui" webui gs ∙ sym is_ours;
              resolved = set-All "webui" webui gs secret_paths sections (rw e at real);
            }

-- When an import succeeds, whatever the file says, the document that was validated has the `webui`
-- section of the current configuration and not one of the file, and none of the secret paths leads
-- to the sentinel in it. The secrets of the current configuration are taken to be plain values other
-- than the sentinel.
pub import_config-Imported :
    (c : Codec) (blob : String) (passphrase : Option String) (current : c.Config)
    (r : ImportResult c)
    → All (λ p. AllAt IsPlain p (obj (c.dump current))) secret_paths
    → import_config c blob passphrase current ≡ inr r
    → Imported c current r
import_config-Imported c blob passphrase current r plain h =
    Returns-inr (Imported c current) _ r (import_config-Returns c current plain blob passphrase) h
