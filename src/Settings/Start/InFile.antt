-- ===== src/Settings/Start/InFile.antt =====
-- What the first part of a start leaves: a file that gives the configuration in memory.
use netbox_monitor.Prelude.{
  ℕ, ◌≡◌, refl, ◌∙◌, ap, String, false, not, ◌||◌, ◌=?◌, arith, Option, none, some, List, [], ◌∷◌,
  maybe, ◌⊎◌, inl, inr, if-holds, maybe-holds, Bool-cases, Option-cases,
}
use netbox_monitor.Json.{Json, Fields, get}
use netbox_monitor.Config.{MigrationError, config_schema_version, is_null, detect_schema}
use netbox_monitor.Settings.{
  Models, File, Disk, Fault, works, raises, tears, restricted, restrict_settings, execute, Store,
}
use netbox_monitor.Settings.Atomic.{stored, kept, execute-Save}
use netbox_monitor.Settings.History.{text_of}
use netbox_monitor.Settings.Start.{
  Forms, Faults, Restored, restored, nothing_restored, restore_raised, Inputs, Started, started,
  start_raised, next, config_from_raw, needs_rewrite, fresh, save_first, open_found, open_settings,
  restrict_then_open, import_yaml, restore_or_import, open_store,
}

kept_stamp :
    (found : ℕ) (o : Option Json)
    → (not (found =? config_schema_version) || not (maybe o false (λ v. not (is_null v)))) ≡ false
    → (found ≡ config_schema_version) × ((v : Json) × (o ≡ some v) × (is_null v ≡ false))
kept_stamp found none h = absurd (ground (arith, h))
kept_stamp found (some v) h = (ground (arith, h), (v, refl, ground (arith, h)))

module _ (m : Models) (f : Forms m) where
  -- The file has the configuration in memory, or is of the current version, says so, and loads to it.
  pub data InFile (s : Store m) (d : Disk) : Type 0 where
    written : text_of d.settings ≡ some (m.text s.config) → InFile s d
    current :
        (text : String) (raw : Fields) (v : Json)
        → text_of d.settings ≡ some text
        → f.parse text ≡ some raw
        → detect_schema raw ≡ inr config_schema_version
        → get "schema_version" raw ≡ some v
        → is_null v ≡ false
        → config_from_raw m f raw ≡ some s.config
        → InFile s d

  -- what is not written anew is of the current version, and says so
  rewrite-current :
      (text : String) (raw : Fields) (c : m.Config) (d : Disk) (found : ℕ)
      → text_of d.settings ≡ some text
      → f.parse text ≡ some raw
      → config_from_raw m f raw ≡ some c
      → detect_schema raw ≡ inr found
      → needs_rewrite m f raw found ≡ false
      → InFile (fresh m f c) d
  rewrite-current text raw c d found t p g q new =
      let (same, (v, e, stamped)) = kept_stamp found (get "schema_version" raw) new in
      current text raw v t p (q ∙ ap inr same) e stamped g

  -- of the store and the disk, where a store is returned
  abbrev pub Leaves : (Store m → Disk → Type 0) → Started m f → Type 0
  Leaves P (started s d) = P s d
  Leaves P (start_raised d) = Unit {0}

  save_first-Leaves :
      (c : m.Config) (faults : List Fault) (d : Disk) → Leaves InFile (save_first m f c faults d)
  unfolding save_first
  save_first-Leaves c faults d = elim (execute-Save (m.text c) faults d) [
    | stored e t ↦ rw e (written (ap text_of t))
    | kept e t ↦ rw e tt
  ]

  restricted-text : (o : Option File) → text_of (restricted o) ≡ text_of o
  restricted-text none = refl
  restricted-text (some file) = refl

  restrict-text :
      (faults : List Fault) (d : Disk)
      → text_of (execute (restrict_settings ∷ []) faults d).0.settings ≡ text_of d.settings
  unfolding execute
  restrict-text [] d = restricted-text d.settings
  restrict-text (works ∷ fs) d = restricted-text d.settings
  restrict-text (raises ∷ fs) d = refl
  restrict-text (tears part ∷ fs) d = refl

  open_found-Leaves :
      (text : String) (raw : Fields) (c : m.Config) (faults : List Fault) (d : Disk)
      (r : MigrationError ⊎ ℕ)
      → text_of d.settings ≡ some text
      → f.parse text ≡ some raw
      → config_from_raw m f raw ≡ some c
      → detect_schema raw ≡ r
      → Leaves InFile (open_found m f raw c faults d r)
  open_found-Leaves text raw c faults d (inl e) t p g q = tt
  open_found-Leaves text raw c faults d (inr found) t p g q =
      elim (Bool-cases (needs_rewrite m f raw found)) [
        | inl old ↦ rw old (save_first-Leaves c faults d)
        | inr new ↦ rw new (rewrite-current text raw c d found t p g q new)
      ]

  open_settings-Leaves :
      (text : String) (faults : Faults) (d : Disk)
      → text_of d.settings ≡ some text
      → Leaves InFile (open_settings m f text faults d)
  unfolding open_settings
  open_settings-Leaves text faults d t = elim (Option-cases (f.parse text)) [
    | inl e ↦ rw e tt
    | inr (raw, e) ↦ rw e (elim (Option-cases (config_from_raw m f raw)) [
      | inl g ↦ rw g tt
      | inr (c, g) ↦
          rw g (open_found-Leaves text raw c faults.of_first_save d (detect_schema raw) t e g refl)
    ])
  ]

  -- a start so far, and the rest
  pub Leaves-next :
      (P Q : Store m → Disk → Type 0) (a : Started m f) (k : Store m → Disk → Started m f)
      → Leaves P a
      → ((s : Store m) (d : Disk) → P s d → Leaves Q (k s d))
      → Leaves Q (next m f a k)
  Leaves-next P Q (started s d) k h g = g s d h
  Leaves-next P Q (start_raised d) k h g = tt

  pub Leaves-map :
      (P Q : Store m → Disk → Type 0) (a : Started m f)
      → ((s : Store m) (d : Disk) → P s d → Q s d)
      → Leaves P a
      → Leaves Q a
  Leaves-map P Q (started s d) g h = g s d h
  Leaves-map P Q (start_raised d) g h = tt

  restrict_then_open-Leaves :
      (file : File) (faults : Faults) (d : Disk)
      → d.settings ≡ some file
      → Leaves InFile (restrict_then_open m f file.text faults d)
  unfolding restrict_then_open
  restrict_then_open-Leaves file faults d e =
      if-holds (Leaves InFile) (execute (restrict_settings ∷ []) faults.of_restrict d).1 _ _
        (λ _.
          open_settings-Leaves file.text faults _
            (restrict-text faults.of_restrict d ∙ ap text_of e))
        (λ _. tt)

  import_yaml-Leaves :
      (i : Inputs m f) (faults : Faults) (d : Disk) → Leaves InFile (import_yaml m f i faults d)
  unfolding import_yaml
  import_yaml-Leaves i faults d =
      maybe-holds (Leaves InFile) i.config_yaml _ _
        (save_first-Leaves f.blank faults.of_first_save d)
        (λ loaded.
          maybe-holds (Leaves InFile) loaded _ _ tt
            (λ c. save_first-Leaves c faults.of_first_save d))

  restore_or_import-Leaves :
      (r : Restored m.Config) (i : Inputs m f) (faults : Faults) (d : Disk)
      → Leaves InFile (restore_or_import m f r i faults d)
  unfolding restore_or_import
  restore_or_import-Leaves (restored c) i faults d = save_first-Leaves c faults.of_first_save d
  restore_or_import-Leaves nothing_restored i faults d = import_yaml-Leaves i faults d
  restore_or_import-Leaves restore_raised i faults d = tt

  opened-Leaves :
      (i : Inputs m f) (faults : Faults) (d : Disk) (o : Option File)
      → d.settings ≡ o
      → Leaves InFile (
          maybe o
            (restore_or_import m f i.from_env i faults d)
            (λ file. restrict_then_open m f file.text faults d))
  opened-Leaves i faults d none e = restore_or_import-Leaves i.from_env i faults d
  opened-Leaves i faults d (some file) e = restrict_then_open-Leaves file faults d e

  pub open_store-Leaves :
      (i : Inputs m f) (faults : Faults) (d : Disk) → Leaves InFile (open_store m f i faults d)
  unfolding open_store
  open_store-Leaves i faults d = opened-Leaves i faults d d.settings refl
