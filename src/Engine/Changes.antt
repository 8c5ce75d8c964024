-- ===== src/Engine/Changes.antt =====
-- What holds of the engine however its steps and those of the saves are interleaved.
use netbox_monitor.Prelude.{
  ℕ, ◌+◌, ◌≤◌, ◌≡◌, ◌≢◌, refl, String, Bool, true, false, List, [], mem, arith, Option, some, none,
  some-injective, if◌then◌else◌,
}
use netbox_monitor.Engine.{
  Store, begin_save, end_save, fail_save, set_stop, Round, Phase, top, reading, decided, idle,
  running, ended, State, at, run_now, is_outdated, EngineStep, save_begins, save_ends, save_fails,
  stops, round_starts, loop_ends, config_is_read, not_configured, bootstrap_fails, round_raises,
  modules_start, idle_ends, running_ends, watch_idle, watch_running, Reachable, at_first, after,
}

-- Every configuration was saved, or its save failed or goes on.
abbrev IsCounted : Store → Type 0
IsCounted st = st.version ≡ st.generation + st.failed + (if st.saving then 1 else 0)

-- The configuration of a round is no older than its generation, and none of the future.
abbrev IsRead : Store → Round → Type 0
IsRead st r =
    (r.generation + r.failed ≤ r.version)
    × (r.version ≤ st.generation + r.failed)
    × (r.failed ≤ st.failed)

module _ (configured : ℕ → Bool) (modules : ℕ → List String) where
  abbrev Fits : Store → Phase → List String → Type 0
  Fits st top t = t ≡ []
  Fits st (reading g) t = (t ≡ []) × (g ≤ st.generation)
  Fits st (decided r) t = (t ≡ []) × IsRead st r
  Fits st (idle r reload) t = (t ≡ []) × IsRead st r
  Fits st (running r reload) t =
      (t ≡ modules r.version) × (configured r.version ≡ true) × IsRead st r
  Fits st ended t = t ≡ []

  abbrev IsSound : State → Type 0
  IsSound (at st p t) = IsCounted st × Fits st p t

  -- The phase does not mind a store that has grown.
  grown :
      (st st' : Store) (p : Phase) (t : List String)
      → st.generation ≤ st'.generation
      → st.failed ≤ st'.failed
      → Fits st p t
      → Fits st' p t
  grown st st' top t g f h = h
  grown st st' (reading n) t g f h = (h.0, omega (arith, h.1))
  grown st st' (decided r) t g f (e, (a, b, c)) = (e, (a, omega arith, omega arith))
  grown st st' (idle r reload) t g f (e, (a, b, c)) = (e, (a, omega arith, omega arith))
  grown st st' (running r reload) t g f (e, k, (a, b, c)) = (e, k, (a, omega arith, omega arith))
  grown st st' ended t g f h = h

  step-IsSound : (s s' : State) → EngineStep configured modules s s' → IsSound s → IsSound s'
  step-IsSound _ _ (save_begins st p t e) (n, h) =
      (ground (arith, n, e), grown st (begin_save st) p t (omega arith) (omega arith) h)
  step-IsSound _ _ (save_ends st p t e) (n, h) =
      (ground (arith, n, e), grown st (end_save st) p t (omega arith) (omega arith) h)
  step-IsSound _ _ (save_fails st p t e) (n, h) =
      (ground (arith, n, e), grown st (fail_save st) p t (omega arith) (omega arith) h)
  step-IsSound _ _ (stops st p t) (n, h) =
      (n, grown st (set_stop st) p t (omega arith) (omega arith) h)
  step-IsSound _ _ (round_starts st t e) (n, h) = (n, (h, omega arith))
  step-IsSound _ _ (loop_ends st t e) h = h
  step-IsSound _ _ (config_is_read st g t e) (n, (e', le)) =
      let counted : st.version ≡ st.generation + st.failed = ground (arith, n, e) in
      (n, (e', (omega arith, omega arith, omega arith)))
  step-IsSound _ _ (not_configured st r t e) h = h
  step-IsSound _ _ (bootstrap_fails st r t e) h = h
  step-IsSound _ _ (round_raises st r t e) (n, (e', h)) = (n, e')
  step-IsSound _ _ (modules_start st r t e) (n, (e', h)) = (n, (refl, e, h))
  step-IsSound _ _ (idle_ends st r b t e) (n, (e', h)) = (n, e')
  step-IsSound _ _ (running_ends st r b t e) (n, h) = (n, refl)
  step-IsSound _ _ (watch_idle st r b t e) h = h
  step-IsSound _ _ (watch_running st r b t e) h = h

  reachable-IsSound : (s : State) → Reachable configured modules s → IsSound s
  reachable-IsSound _ at_first = (refl, refl)
  reachable-IsSound _ (after s t h step) = step-IsSound s t step (reachable-IsSound s h)

outdated :
    (st : Store) (r : Round)
    → IsCounted st
    → IsRead st r
    → st.saving ≡ false
    → st.failed ≡ r.failed
    → st.version ≢ r.version
    → is_outdated st r ≡ true
outdated st r n h quiet f differs =
    let counted : st.version ≡ st.generation + st.failed = ground (arith, n, quiet) in
    let newer : st.generation ≢ r.generation =
      λ e. differs (omega (arith, counted, e, f, h.0, h.1)) in
    ground (arith, newer)

-- the round that a state waits in
abbrev pub round_of : State → Option Round
round_of (at st (idle r reload) t) = some r
round_of (at st (running r reload) t) = some r
round_of s = none

abbrev pub store_of : State → Store
store_of (at st p t) = st

-- whether `reload_evt` is set
abbrev pub is_reloading : State → Bool
is_reloading (at st (idle r reload) t) = reload
is_reloading (at st (running r reload) t) = reload
is_reloading s = false

module _ (configured : ℕ → Bool) (modules : ℕ → List String) where
  watch_step-IsSound :
      (s : State) (r : Round)
      → IsSound configured modules s
      → round_of s ≡ some r
      → (store_of s).saving ≡ false
      → (store_of s).failed ≡ r.failed
      → (store_of s).version ≢ r.version
      → (s' : State) × EngineStep configured modules s s' × (is_reloading s' ≡ true)
  watch_step-IsSound (at st (idle q b) t) r (n, (e, h)) w quiet f differs =
      let same : q ≡ r = some-injective w in
      let late : is_outdated st q ≡ true =
        rw same (outdated st r n (rw same at h) quiet f differs) in
      (at st (idle q true) t, watch_idle st q b t late, refl)
  watch_step-IsSound (at st (running q b) t) r (n, (e, k, h)) w quiet f differs =
      let same : q ≡ r = some-injective w in
      let late : is_outdated st q ≡ true =
        rw same (outdated st r n (rw same at h) quiet f differs) in
      (at st (running q true) t, watch_running st q b t late, refl)
  watch_step-IsSound (at st top t) r h w quiet f differs = absurd (ground (arith, w))
  watch_step-IsSound (at st (reading g) t) r h w quiet f differs = absurd (ground (arith, w))
  watch_step-IsSound (at st (decided q) t) r h w quiet f differs = absurd (ground (arith, w))
  watch_step-IsSound (at st ended t) r h w quiet f differs = absurd (ground (arith, w))

  run_now-IsSound :
      (s : State) (name : String)
      → IsSound configured modules s
      → run_now s name ≡ true
      → (r : Round) × (round_of s ≡ some r)
        × (configured r.version ≡ true)
        × (mem name (modules r.version) ≡ true)
  unfolding run_now
  run_now-IsSound (at st (running r b) t) name (n, (e, k, h)) w = (r, refl, k, rw (← e) w)
  run_now-IsSound (at st top t) name (n, e) w = absurd (ground (arith, w, e))
  run_now-IsSound (at st (reading g) t) name (n, (e, h)) w = absurd (ground (arith, w, e))
  run_now-IsSound (at st (decided q) t) name (n, (e, h)) w = absurd (ground (arith, w, e))
  run_now-IsSound (at st (idle q b) t) name (n, (e, h)) w = absurd (ground (arith, w, e))
  run_now-IsSound (at st ended t) name (n, e) w = absurd (ground (arith, w, e))

-- However the steps of the engine, of the saves and of the stop are interleaved: where the engine waits
-- with a configuration that is no longer the one of the store, no save is going on, and none has failed
-- since the configuration was read, the watcher can take its step, and sets `reload_evt`. So no change
-- that was saved is missed.
pub watch_step-Reachable :
    (configured : ℕ → Bool) (modules : ℕ → List String) (s : State) (r : Round)
    → Reachable configured modules s
    → round_of s ≡ some r
    → (store_of s).saving ≡ false
    → (store_of s).failed ≡ r.failed
    → (store_of s).version ≢ r.version
    → (s' : State) × EngineStep configured modules s s' × (is_reloading s' ≡ true)
watch_step-Reachable configured modules s r h w quiet f differs =
    watch_step-IsSound configured modules s r (reachable-IsSound configured modules s h) w quiet f
      differs

-- In every state that the engine can reach, `run_now` accepts a module only in a round whose
-- configuration has NetBox configured and enables the module: not before the first round, not in the
-- rebuild between two rounds, and not after the end.
pub run_now-Reachable :
    (configured : ℕ → Bool) (modules : ℕ → List String) (s : State) (name : String)
    → Reachable configured modules s
    → run_now s name ≡ true
    → (r : Round) × (round_of s ≡ some r)
      × (configured r.version ≡ true)
      × (mem name (modules r.version) ≡ true)
run_now-Reachable configured modules s name h w =
    run_now-IsSound configured modules s name (reachable-IsSound configured modules s h) w
