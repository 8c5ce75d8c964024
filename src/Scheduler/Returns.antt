-- ===== src/Scheduler/Returns.antt =====
-- An exception of a module does not end its loop.
use netbox_monitor.Prelude.{◌≡◌}
use netbox_monitor.Wire.Request.{Request, Reply, answered}
use netbox_monitor.Effects.{Prog}
use netbox_monitor.Effects.Run.{Environment, run}

-- The requests that are answered in every state.
abbrev pub Answers : {S : Type 0} → Environment S → Request → Type 0
Answers {S} env r = (s : S) → (a : Reply r) × ((env.answer r s).0 ≡ answered a)

module _ {S : Type 0} (env : Environment S) where
  abbrev ReturnsAt : {A : Type 0} → Prog A → S → Type 0
  ReturnsAt {A} m s = (a : A) × ((run env m s).result ≡ answered a)

  abbrev Returns : {A : Type 0} → Prog A → Type 0
  Returns m = (s : S) → ReturnsAt m s
