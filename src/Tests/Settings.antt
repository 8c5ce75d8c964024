-- ===== src/Tests/Settings.antt =====
-- The settings store at a concrete history of changes, one of which fails.
use netbox_monitor.Prelude.{
  String, ◌≡◌, refl, true, some, none, [], ◌∷◌, List, false, some-injective,
}
use netbox_monitor.Settings.{
  Models, Disk, works, raises, tears, execute, Call, replaces, updates, run_calls, handle, replace,
  update_field, install, commit,
}
use netbox_monitor.Settings.Start.{
  Forms, Faults, Inputs, started, restore_from_env, save_first, import_yaml, restore_or_import,
  open_store, set_password, set_secret, bootstrap_store,
}
use netbox_monitor.Settings.Start.Ready.{IsReady, bootstrap_store-IsReady}
use netbox_monitor.Settings.History.{Refines, run_calls-Refines}

abbrev models : Models
models = record { Config = String; text = λ c. c; validate = some }

abbrev empty_disk : Disk
empty_disk = record { settings = none; tmp = none; backup = none }

-- the disk is full in the second call
abbrev calls : List (Call models)
calls =
    replaces "one" true [] []
    ∷ updates (λ c. "two") (tears "t" ∷ [])
    ∷ replaces "three" true (works ∷ raises ∷ []) (works ∷ raises ∷ [])
    ∷ []

committed_twice :
    (run_calls models calls (record { config = "zero"; generation = 0 }) empty_disk).2
    ≡ "one" ∷ "three" ∷ []
unfolding run_calls handle replace update_field install commit execute
committed_twice = refl

run_calls-Refines_example :
    Refines models
      (record { config = "zero"; generation = 0 })
      empty_disk
      (run_calls models calls (record { config = "zero"; generation = 0 }) empty_disk)
run_calls-Refines_example =
    run_calls-Refines models calls (record { config = "zero"; generation = 0 }) empty_disk

-- a configuration is its session secret here
abbrev forms : Forms models
forms = record {
  parse = λ text. none;
  validate_raw = λ raw. none;
  blank = "";
  password_hash = λ c. "hash";
  session_secret = λ c. c;
  with_password_hash = λ h c. c;
  with_session_secret = λ t c. t;
}

abbrev inputs : Inputs models forms
inputs = record {
  from_env = restore_from_env none false none;
  config_yaml = none;
  password = none;
  token = "5ec2e7";
}

-- the first save of all meets a `chmod` that does not work
abbrev faults : Faults
faults = record {
  of_restrict = [];
  of_first_save = works ∷ raises ∷ [];
  of_password = [];
  of_secret = [];
}

abbrev after_start : Disk
after_start = record {
  settings = some (record { text = "5ec2e7"; private = true });
  tmp = none;
  backup = none;
}

first_start :
    bootstrap_store models forms inputs faults empty_disk
    ≡ started (record { config = "5ec2e7"; generation = 1 }) after_start
unfolding bootstrap_store open_store restore_or_import import_yaml save_first set_password
    set_secret update_field install commit execute restore_from_env
first_start = refl

bootstrap_store-IsReady_example :
    IsReady models forms (record { config = "5ec2e7"; generation = 1 }) after_start
bootstrap_store-IsReady_example =
    bootstrap_store-IsReady models forms inputs faults empty_disk after_start
      (record { config = "5ec2e7"; generation = 1 }) (λ c v p. rw (← some-injective p) refl)
      first_start
