-- ===== src/Settings.antt =====
-- settings_store.py: the configuration in memory, its file, and the two operations that change both.
-- An operation on a file may raise, or tear what it writes; `chmod` may fail and is ignored then.
-- The models of the configuration are the parameter `Models`.
pub mod Atomic
pub mod History
pub mod Start
use netbox_monitor.Prelude.{
  ℕ, suc, String, Bool, true, false, Option, none, some, List, [], ◌∷◌, ◌++◌, if◌then◌else◌, maybe,
  is_some,
}

pub record Models : Type 1 where
  pub Config : Type 0
  pub text : Config → String  -- `json.dumps(config.model_dump(mode="json"), indent=2)`
  pub validate : Config → Option Config  -- `AppConfig.model_validate(config.model_dump())`

pub record File : Type 0 where
  pub text : String
  pub private : Bool  -- the mode is 0600

-- settings.json, settings.json.tmp and settings.json.bak
pub record Disk : Type 0 where
  pub settings : Option File
  pub tmp : Option File
  pub backup : Option File

pub data FileOp : Type 0 where
  write_tmp : String → FileOp  -- `tmp.write_text(…)`
  restrict_tmp : FileOp  -- `_restrict(tmp)`
  rename : FileOp  -- `os.replace(tmp, self.path)`
  copy : FileOp  -- `shutil.copy2(self.path, backup_path)`
  restrict_backup : FileOp
  restrict_settings : FileOp  -- `_restrict(path)`

-- How an operation goes: it works, it raises, or it stops with part of the text written.
pub data Fault : Type 0 where
  works : Fault
  raises : Fault
  tears : String → Fault

abbrev pub restricted : Option File → Option File
restricted o = maybe o none (λ f. some (record f { private = true }))

abbrev pub apply : FileOp → Disk → Disk
apply (write_tmp s) d = record d { tmp = some (record { text = s; private = false }) }
apply restrict_tmp d = record d { tmp = restricted d.tmp }
apply rename d = record d { settings = d.tmp; tmp = none }
apply copy d = record d { backup = d.settings }
apply restrict_settings d = record d { settings = restricted d.settings }
apply restrict_backup d = record d { backup = restricted d.backup }

-- what is left of an operation that stops half way; a rename has no half way
abbrev pub torn : FileOp → String → Disk → Disk
torn (write_tmp s) part d = record d { tmp = some (record { text = part; private = false }) }
torn copy part d = record d { backup = some (record { text = part; private = false }) }
torn op part d = d

-- `contextlib.suppress(OSError)` around `os.chmod`
abbrev pub is_suppressed : FileOp → Bool
is_suppressed restrict_tmp = true
is_suppressed restrict_backup = true
is_suppressed restrict_settings = true
is_suppressed op = false

abbrev pub first : List Fault → Fault
first [] = works
first (f ∷ fs) = f

abbrev pub later : List Fault → List Fault
later [] = []
later (f ∷ fs) = fs

-- The operations one after another, and whether all of them were reached.
unfoldable pub execute : List FileOp → List Fault → Disk → Disk × Bool
execute [] faults d = (d, true)
execute (op ∷ ops) faults d = elim (first faults) [
  | works ↦ execute ops (later faults) (apply op d)
  | raises ↦ elim (is_suppressed op) [ true ↦ execute ops (later faults) d | false ↦ (d, false) ]
  | tears part ↦ (torn op part d, false)
]

-- `_persist`
abbrev pub persist_ops : String → List FileOp
persist_ops text = write_tmp text ∷ restrict_tmp ∷ rename ∷ []

-- `_backup_unlocked`
abbrev pub backup_ops : Disk → List FileOp
backup_ops d = if is_some d.settings then copy ∷ restrict_backup ∷ [] else []

module _ (m : Models) where
  -- `_config` and `generation`
  pub record Store : Type 0 where
    pub config : m.Config
    pub generation : ℕ

  -- The store and the disk after a call, and the configuration that it committed, with nothing
  -- where the call raised.
  pub record After : Type 0 where
    pub store : Store
    pub disk : Disk
    pub committed : Option m.Config

  -- `self._config = …; self._persist(); self.generation += 1`
  unfoldable pub commit : m.Config → List Fault → Store → Disk → After
  commit config faults s d =
      let (d', done) = execute (persist_ops (m.text config)) faults d in
      if done
      then record {
        store = record { config = config; generation = suc s.generation };
        disk = d';
        committed = some config;
      }
      else record { store = record s { config = config }; disk = d'; committed = none }

  -- Validation comes before the change, and its failure leaves the store as it is.
  unfoldable pub install : m.Config → List Fault → Store → Disk → After
  install config faults s d =
      maybe (m.validate config) (record { store = s; disk = d; committed = none })
        (λ valid. commit valid faults s d)

  -- The faults of the backup, and those of the rest.
  unfoldable pub replace : m.Config → Bool → List Fault → List Fault → Store → Disk → After
  replace config backup backup_faults faults s d =
      let (d', done) = execute (if backup then backup_ops d else []) backup_faults d in
      if done then install config faults s d' else record { store = s; disk = d'; committed = none }

  unfoldable pub update_field : (m.Config → m.Config) → List Fault → Store → Disk → After
  update_field mutator faults s d = install (mutator s.config) faults s d

  pub data Call : Type 0 where
    replaces : m.Config → Bool → List Fault → List Fault → Call
    updates : (m.Config → m.Config) → List Fault → Call

  unfoldable pub handle : Call → Store → Disk → After
  handle (replaces config backup bf f) s d = replace config backup bf f s d
  handle (updates mutator f) s d = update_field mutator f s d

  abbrev pub noted : Option m.Config → List m.Config → List m.Config
  noted none cs = cs
  noted (some c) cs = c ∷ cs

  -- A history of calls, which the lock puts in order, with the configurations that were committed.
  unfoldable pub run_calls : List Call → Store → Disk → Store × Disk × List m.Config
  run_calls [] s d = (s, d, [])
  run_calls (call ∷ calls) s d =
      let a = handle call s d in
      let (t, e, cs) = run_calls calls a.store a.disk in (t, e, noted a.committed cs)
