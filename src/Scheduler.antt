-- ===== src/Scheduler.antt =====
-- scheduler.py: `_loop`, of one module. The rounds of the `while` loop are fuel: the service goes on until
-- it is stopped or its settings change.
pub mod Returns
use netbox_monitor.Prelude.{
  ℕ, zero, suc, ◌-◌, String, Bool, true, false, ◌||◌, leb, if◌then◌else◌, ◌/◌,
}
use netbox_monitor.Wire.Request.{Request}
use netbox_monitor.Effects.{Prog, pure, ask, try_catch, ◌>>=◌, ◌>>◌}
use netbox_monitor.Status.{record_status}

-- `SyncModule`
pub record SyncModule : Type 0 where
  pub name : String
  pub interval : ℕ
  pub run : Prog (Unit {0})

-- `max(5.0, module.interval - (time.monotonic() - started))`
abbrev pub delay : ℕ → ℕ → ℕ
delay interval elapsed = if leb (interval - elapsed) 5 then 5 else interval - elapsed

module _ (dump : ℕ → Bool → String → ℕ → String) where
  unfoldable pub module_report : SyncModule → Bool → String → ℕ → Prog (Unit {0})
  module_report m ok message started = do
    ended ← ask Request.monotonic
    record_status dump m.name "_run" ok message (ended - started)

  -- a run, and how long to wait after it
  unfoldable pub run_module : SyncModule → Prog ℕ
  run_module m = do
    started ← ask Request.monotonic
    try_catch (do m.run; module_report m true "ok" started)
        (λ e. module_report m false e.text started)
    now ← ask Request.monotonic
    pure (delay m.interval (now - started))

  -- The loop from a wait on, and whether it has ended by then. The first wait is the jitter.
  unfoldable pub sync_loop : ℕ → SyncModule → ℕ → Prog Bool
  sync_loop zero m timeout = pure false
  sync_loop (suc rounds) m timeout = do
    (stop, reload) ← ask (Request.wait m.name timeout)
    if stop || reload then pure true else do next ← run_module m; sync_loop rounds m next
