-- ===== src/Engine.antt =====
-- scheduler.py: `Engine`, which runs the modules and rebuilds them when the settings change, beside the
-- saves of settings_store.py, which other threads make. A step of the relation is what happens between
-- two points where another thread or task may go on. `configured` and `modules` say what a
-- configuration has, by its number in the order in which the store got them.
pub mod Changes
use netbox_monitor.Prelude.{ℕ, suc, ◌≡◌, String, Bool, true, false, not, ◌||◌, List, [], ◌=?◌, mem}

-- `SettingsStore`: the number of the configuration in `_config`, and how many saves failed after they
-- had set it; whether a save holds the lock; and the event `stop`.
pub record Store : Type 0 where
  pub version : ℕ
  pub generation : ℕ
  pub failed : ℕ
  pub saving : Bool
  pub stop : Bool

-- `self._config = …`, in `replace` and `update_field`
abbrev pub begin_save : Store → Store
begin_save st = record st { version = suc st.version; saving = true }

-- `self.generation += 1`
abbrev pub end_save : Store → Store
end_save st = record st { generation = suc st.generation; saving = false }

-- `_persist` raises
abbrev pub fail_save : Store → Store
fail_save st = record st { failed = suc st.failed; saving = false }

abbrev pub set_stop : Store → Store
set_stop st = record st { stop = true }

-- What a round of `Engine.run` works with: `generation`, and the configuration that it got.
pub record Round : Type 0 where
  pub generation : ℕ
  pub version : ℕ
  pub failed : ℕ  -- of the store, when the configuration was read

-- Where `Engine.run` is; the flag is `reload_evt`.
pub data Phase : Type 0 where
  top : Phase  -- the test of the `while` loop
  reading : ℕ → Phase  -- `generation` is read, `config` is not
  decided : Round → Phase
  idle : Round → Bool → Phase  -- not configured, or the bootstrap failed
  running : Round → Bool → Phase  -- `run_scheduler`, or the wait where no module is enabled
  ended : Phase

-- with the keys of `self.triggers`
pub data State : Type 0 where
  at : Store → Phase → List String → State

-- `run_now`
unfoldable pub run_now : State → String → Bool
run_now (at st p triggers) name = mem name triggers

-- the test of `_watch_generation`
abbrev pub is_outdated : Store → Round → Bool
is_outdated st r = st.stop || not (st.generation =? r.generation)

module _ (configured : ℕ → Bool) (modules : ℕ → List String) where
  pub data EngineStep : State → State → Type 0 where
    -- the threads that save, and the one that stops the service
    save_begins :
        (st : Store) (p : Phase) (t : List String)
        → st.saving ≡ false
        → EngineStep (at st p t) (at (begin_save st) p t)
    save_ends :
        (st : Store) (p : Phase) (t : List String)
        → st.saving ≡ true
        → EngineStep (at st p t) (at (end_save st) p t)
    save_fails :
        (st : Store) (p : Phase) (t : List String)
        → st.saving ≡ true
        → EngineStep (at st p t) (at (fail_save st) p t)
    stops :
        (st : Store) (p : Phase) (t : List String) → EngineStep (at st p t) (at (set_stop st) p t)
    -- `Engine.run`
    round_starts :
        (st : Store) (t : List String)
        → st.stop ≡ false
        → EngineStep (at st top t) (at st (reading st.generation) t)
    loop_ends :
        (st : Store) (t : List String) → st.stop ≡ true → EngineStep (at st top t) (at st ended t)
    -- `get` takes the lock
    config_is_read :
        (st : Store) (g : ℕ) (t : List String)
        → st.saving ≡ false
        → EngineStep (at st (reading g) t) (
            at st (decided (record { generation = g; version = st.version; failed = st.failed })) t)
    not_configured :
        (st : Store) (r : Round) (t : List String)
        → configured r.version ≡ false
        → EngineStep (at st (decided r) t) (at st (idle r false) t)
    bootstrap_fails :
        (st : Store) (r : Round) (t : List String)
        → configured r.version ≡ true
        → EngineStep (at st (decided r) t) (at st (idle r false) t)
    -- `build_context` or `build_modules` raises
    round_raises :
        (st : Store) (r : Round) (t : List String)
        → configured r.version ≡ true
        → EngineStep (at st (decided r) t) (at st ended t)
    modules_start :
        (st : Store) (r : Round) (t : List String)
        → configured r.version ≡ true
        → EngineStep (at st (decided r) t) (at st (running r false) (modules r.version))
    idle_ends :
        (st : Store) (r : Round) (reload : Bool) (t : List String)
        → (st.stop || reload) ≡ true
        → EngineStep (at st (idle r reload) t) (at st top t)
    running_ends :
        (st : Store) (r : Round) (reload : Bool) (t : List String)
        → (st.stop || reload) ≡ true
        → EngineStep (at st (running r reload) t) (at st top [])
    -- `_watch_generation`
    watch_idle :
        (st : Store) (r : Round) (reload : Bool) (t : List String)
        → is_outdated st r ≡ true
        → EngineStep (at st (idle r reload) t) (at st (idle r true) t)
    watch_running :
        (st : Store) (r : Round) (reload : Bool) (t : List String)
        → is_outdated st r ≡ true
        → EngineStep (at st (running r reload) t) (at st (running r true) t)

  abbrev pub first_state : State
  first_state =
      at (record { version = 0; generation = 0; failed = 0; saving = false; stop = false }) top []

  pub data Reachable : State → Type 0 where
    at_first : Reachable first_state
    after : (s t : State) → Reachable s → EngineStep s t → Reachable t
