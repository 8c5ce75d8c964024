-- ===== src/Settings/Start.antt =====
-- settings_store.py: `SettingsStore.bootstrap`, and `_restore_from_env` for a given outcome of the import.
pub mod InFile
pub mod Ready
use netbox_monitor.Prelude.{
  ℕ, String, Bool, true, false, not, ◌&&◌, ◌||◌, Option, none, some, List, [], ◌∷◌, ◌=?◌, either,
  maybe, is_some, is_empty, if◌then◌else◌, ◌⊎◌, inl, inr,
}
use netbox_monitor.Json.{Json, Fields, get}
use netbox_monitor.Config.{
  MigrationError, config_schema_version, is_null, detect_schema, migrate_to_current,
}
use netbox_monitor.Settings.{
  Models, File, Disk, Fault, FileOp, restrict_settings, execute, persist_ops, Store, After,
  update_field,
}

-- What the module does with a configuration besides. `parse` is `json.loads`, with nothing where it
-- raises, and `validate_raw` is `AppConfig.model_validate` of a document.
pub record Forms (m : Models) : Type 0 where
  pub parse : String → Option Fields
  pub validate_raw : Fields → Option m.Config
  pub blank : m.Config  -- `AppConfig()`
  pub password_hash : m.Config → String
  pub session_secret : m.Config → String
  pub with_password_hash : String → m.Config → m.Config
  pub with_session_secret : String → m.Config → m.Config

-- The faults of the steps of a start.
pub record Faults : Type 0 where
  pub of_restrict : List Fault
  pub of_first_save : List Fault
  pub of_password : List Fault
  pub of_secret : List Fault

-- `_restore_from_env`: a configuration, none, or an exception
pub data Restored (A : Type 0) : Type 0 where
  nothing_restored : Restored A
  restored : A → Restored A
  restore_raised : Restored A

-- From `NBM_RESTORE_FILE`, `NBM_RESTORE_STRICT` and what the import gave, which is nothing where it raised.
unfoldable pub restore_from_env : {A : Type 0} → Option String → Bool → Option A → Restored A
restore_from_env none strict outcome = nothing_restored
restore_from_env (some source) strict (some config) =
    if is_empty source then nothing_restored else restored config
restore_from_env (some source) strict none =
    if is_empty source
    then nothing_restored
    else if strict
    then restore_raised
    else nothing_restored

module _ (m : Models) (f : Forms m) where
  -- What a start finds beside settings.json.
  pub record Inputs : Type 0 where
    pub from_env : Restored m.Config
    pub config_yaml : Option (Option m.Config)  -- where it exists, what `load_config` gives
    pub password : Option String  -- the hash of `WEBUI_PASSWORD`, where that is set
    pub token : String  -- `secrets.token_hex(32)`

  -- The store that `bootstrap` returns, or the exception that it raises, with the disk.
  pub data Started : Type 0 where
    started : Store m → Disk → Started
    start_raised : Disk → Started

  abbrev pub next : Started → (Store m → Disk → Started) → Started
  next (started s d) k = k s d
  next (start_raised d) k = start_raised d

  unfoldable pub config_from_raw : Fields → Option m.Config
  config_from_raw raw = either (migrate_to_current raw) (λ _. none) f.validate_raw

  -- `found != CONFIG_SCHEMA_VERSION or not stamped`
  abbrev pub needs_rewrite : Fields → ℕ → Bool
  needs_rewrite raw found =
      not (found =? config_schema_version)
      || not (maybe (get "schema_version" raw) false (λ v. not (is_null v)))

  abbrev pub fresh : m.Config → Store m
  fresh config = record { config = config; generation = 0 }

  -- `store = cls(path, config); store._persist()`
  unfoldable pub save_first : m.Config → List Fault → Disk → Started
  save_first config faults d =
      let (d', done) = execute (persist_ops (m.text config)) faults d in
      if done then started (fresh config) d' else start_raised d'

  abbrev open_found : Fields → m.Config → List Fault → Disk → MigrationError ⊎ ℕ → Started
  open_found raw config faults d (inl e) = start_raised d
  open_found raw config faults d (inr found) =
      if needs_rewrite raw found then save_first config faults d else started (fresh config) d

  -- the branch of a settings.json with this text
  unfoldable pub open_settings : String → Faults → Disk → Started
  open_settings text faults d = maybe (f.parse text) (start_raised d) (λ raw.
      maybe (config_from_raw raw) (start_raised d)
        (λ config. open_found raw config faults.of_first_save d (detect_schema raw)))

  unfoldable pub restrict_then_open : String → Faults → Disk → Started
  restrict_then_open text faults d =
      let (d', done) = execute (restrict_settings ∷ []) faults.of_restrict d in
      if done then open_settings text faults d' else start_raised d'

  -- the other branches
  unfoldable pub import_yaml : Inputs → Faults → Disk → Started
  import_yaml inputs faults d =
      maybe inputs.config_yaml (save_first f.blank faults.of_first_save d) (λ loaded.
        maybe loaded (start_raised d) (λ config. save_first config faults.of_first_save d))

  unfoldable pub restore_or_import : Restored m.Config → Inputs → Faults → Disk → Started
  restore_or_import (restored config) inputs faults d = save_first config faults.of_first_save d
  restore_or_import nothing_restored inputs faults d = import_yaml inputs faults d
  restore_or_import restore_raised inputs faults d = start_raised d

  unfoldable pub open_store : Inputs → Faults → Disk → Started
  open_store inputs faults d =
      maybe d.settings (restore_or_import inputs.from_env inputs faults d)
        (λ file. restrict_then_open file.text faults d)

  -- a change, which is an exception where it was not committed
  abbrev pub settled : After m → Started
  settled a = maybe a.committed (start_raised a.disk) (λ _. started a.store a.disk)

  unfoldable pub set_password : Option String → List Fault → Store m → Disk → Started
  set_password password faults s d = maybe password (started s d) (λ hash.
      if is_empty (f.password_hash s.config)
      then settled (update_field m (f.with_password_hash hash) faults s d)
      else started s d)

  unfoldable pub set_secret : String → List Fault → Store m → Disk → Started
  set_secret token faults s d =
      if is_empty (f.session_secret s.config)
      then settled (update_field m (f.with_session_secret token) faults s d)
      else started s d

  unfoldable pub bootstrap_store : Inputs → Faults → Disk → Started
  bootstrap_store inputs faults d = next (open_store inputs faults d) (λ s e.
      next (set_password inputs.password faults.of_password s e)
        (λ t g. set_secret inputs.token faults.of_secret t g))
