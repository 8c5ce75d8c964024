-- ===== src/Status.antt =====
-- status.py: `StatusRegistry.record`. `dump` stands for `json.dumps` of the payload, and the duration
-- is in whole seconds.
use netbox_monitor.Prelude.{ℕ, String, Bool, take_text, ◌<>◌}
use netbox_monitor.Wire.Request.{Request}
use netbox_monitor.Effects.{Prog, pure, try_catch, ask, ◌>>=◌}
use netbox_monitor.State.{set_kv}

unfoldable pub record_status :
    (ℕ → Bool → String → ℕ → String) → String → String → Bool → String → ℕ → Prog (Unit {0})
record_status dump name scope ok message duration = do
  now ← ask Request.time
  try_catch
      (set_kv ("status:" <> name <> ":" <> scope) (dump now ok (take_text 500 message) duration))
      (λ _. pure tt)
