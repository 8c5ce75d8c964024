-- ===== src/Tests/Engine.antt =====
-- The engine in an interleaving where the settings change while it runs.
use netbox_monitor.Prelude.{
  ℕ, ◌≡◌, refl, String, Bool, true, false, some, List, [], ◌∷◌, leb, mem, arith,
}
use netbox_monitor.Engine.{
  Store, Round, running, State, at, run_now, EngineStep, save_begins, save_ends, round_starts,
  config_is_read, modules_start, Reachable, at_first, after,
}
use netbox_monitor.Engine.Changes.{round_of, is_reloading, watch_step-Reachable, run_now-Reachable}

-- NetBox is configured in every configuration but the first, and the second enables two modules.
abbrev configured : ℕ → Bool
configured n = leb 1 n

abbrev modules : ℕ → List String
modules n = "dhcp" ∷ "lldp" ∷ []

abbrev store : ℕ → ℕ → Bool → Store
store v g saving = record { version = v; generation = g; failed = 0; saving = saving; stop = false }

abbrev round : Round
round = record { generation = 0; version = 1; failed = 0 }

-- The generation is read before the save ends, and the configuration after it: an early reload is due.
is_running : Reachable configured modules (at (store 1 1 false) (running round false) (modules 1))
is_running =
    after _ _
      (after _ _
        (after _ _ (after _ _ (after _ _ at_first (save_begins _ _ _ refl)) (round_starts _ _ refl))
          (save_ends _ _ _ refl))
        (config_is_read _ _ _ refl))
      (modules_start _ _ _ refl)

abbrev changed : State
changed = at (store 2 2 false) (running round false) (modules 1)

is_changed : Reachable configured modules changed
is_changed = after _ _ (after _ _ is_running (save_begins _ _ _ refl)) (save_ends _ _ _ refl)

watch_step-Reachable_example :
    (s' : State) × EngineStep configured modules changed s' × (is_reloading s' ≡ true)
watch_step-Reachable_example =
    watch_step-Reachable configured modules changed round is_changed refl refl refl
      (λ e. absurd (omega (arith, e)))

run_now-Reachable_example :
    (r : Round) × (round_of changed ≡ some r)
    × (configured r.version ≡ true)
    × (mem "lldp" (modules r.version) ≡ true)
unfolding run_now
run_now-Reachable_example = run_now-Reachable configured modules changed "lldp" is_changed refl
