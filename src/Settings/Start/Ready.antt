-- ===== src/Settings/Start/Ready.antt =====
-- What a start that returns leaves: a file that gives the configuration in memory, and a session secret.
use mathlib.Core.Path.{subst}
use netbox_monitor.Prelude.{
  ◌≡◌, ◌∙◌, ap, sym, String, false, Option, none, some, List, is_empty, arith, inl, inr, if-holds,
  maybe-holds, Bool-cases, Option-cases, some-injective,
}
use netbox_monitor.Settings.{
  Models, Disk, Fault, execute, persist_ops, Store, commit, install, update_field, updates, handle,
}
use netbox_monitor.Settings.History.{committed, refused, handle-Outcome}
use netbox_monitor.Settings.Start.{
  Forms, Faults, Inputs, started, open_store, settled, set_password, set_secret, bootstrap_store,
}
use netbox_monitor.Settings.Start.InFile.{
  InFile, written, Leaves, Leaves-next, Leaves-map, open_store-Leaves,
}

none-some : {A : Type 0} {a : A} → none ≡ some a → ⊥
none-some h = ground (arith, h)

module _ (m : Models) (f : Forms m) where
  commit-committed :
      (v c : m.Config) (faults : List Fault) (s : Store m) (d : Disk)
      → (commit m v faults s d).committed ≡ some c
      → v ≡ c
  unfolding commit
  commit-committed v c faults s d h =
      elim (Bool-cases (execute (persist_ops (m.text v)) faults d).1) [
        | inl done ↦ some-injective (rw done at h)
        | inr broken ↦ absurd (none-some (rw broken at h))
      ]

  -- a configuration that an update committed is the one that was validated
  update-committed :
      (mutator : m.Config → m.Config) (faults : List Fault) (s : Store m) (d : Disk) (c : m.Config)
      → (update_field m mutator faults s d).committed ≡ some c
      → m.validate (mutator s.config) ≡ some c
  unfolding update_field install
  update-committed mutator faults s d c h = elim (Option-cases (m.validate (mutator s.config))) [
    | inl p ↦ absurd (none-some (rw p at h))
    | inr (v, p) ↦ p ∙ ap some (commit-committed v c faults s d (rw p at h))
  ]

  -- A property of every validated change is one of what a change leaves.
  update-Leaves :
      (P : m.Config → Type 0) (mutator : m.Config → m.Config) (faults : List Fault) (s : Store m)
      (d : Disk)
      → ((v : m.Config) → m.validate (mutator s.config) ≡ some v → P v)
      → Leaves m f
          (λ t e. InFile m f t e × P t.config)
          (settled m f (update_field m mutator faults s d))
  unfolding handle
  update-Leaves P mutator faults s d law = elim (handle-Outcome m (updates mutator faults) s d) [
    | committed c x y z ↦ rw x (
      written (z ∙ ap (λ st. some (m.text st.config)) (sym y)),
      subst P (sym (ap (λ st. st.config) y)) (law c (update-committed mutator faults s d c x)),
    )
    | refused x y z ↦ rw x tt
  ]

  set_password-Leaves :
      (password : Option String) (faults : List Fault) (s : Store m) (d : Disk)
      → InFile m f s d
      → Leaves m f (InFile m f) (set_password m f password faults s d)
  unfolding set_password
  set_password-Leaves password faults s d h =
      maybe-holds (Leaves m f (InFile m f)) password _ _ h (λ hash.
        if-holds (Leaves m f (InFile m f)) (is_empty (f.password_hash s.config)) _ _
          (λ _.
            Leaves-map m f (λ t e. InFile m f t e × Unit {0}) (InFile m f) _ (λ t e p. p.0)
              (update-Leaves (λ _. Unit {0}) (f.with_password_hash hash) faults s d (λ _ _. tt)))
          (λ _. h))

  abbrev pub IsReady : Store m → Disk → Type 0
  IsReady s d = InFile m f s d × (is_empty (f.session_secret s.config) ≡ false)

  set_secret-Leaves :
      (token : String) (faults : List Fault) (s : Store m) (d : Disk)
      → ((c v : m.Config)
          → m.validate (f.with_session_secret token c) ≡ some v
          → is_empty (f.session_secret v) ≡ false)
      → InFile m f s d
      → Leaves m f IsReady (set_secret m f token faults s d)
  unfolding set_secret
  set_secret-Leaves token faults s d law h =
      if-holds (Leaves m f IsReady) (is_empty (f.session_secret s.config)) _ _
        (λ _.
          update-Leaves (λ c. is_empty (f.session_secret c) ≡ false) (f.with_session_secret token)
            faults s d (λ v. law s.config v))
        (λ full. (h, full))

-- Whatever the disk holds, whatever the environment says and whatever goes wrong: when a start returns a
-- store, settings.json gives the configuration in memory, since it is that configuration's text or since it
-- was left as a file of the current version that says so and loads to it, and the configuration has a
-- session secret. The validation of a configuration that was given a session secret is taken to keep one.
pub bootstrap_store-IsReady :
    (m : Models) (f : Forms m) (i : Inputs m f) (faults : Faults) (d d' : Disk) (s : Store m)
    → ((c v : m.Config)
        → m.validate (f.with_session_secret i.token c) ≡ some v
        → is_empty (f.session_secret v) ≡ false)
    → bootstrap_store m f i faults d ≡ started s d'
    → IsReady m f s d'
unfolding bootstrap_store
bootstrap_store-IsReady m f i faults d d' s law h = subst (Leaves m f (IsReady m f)) h (
    Leaves-next m f (InFile m f) (IsReady m f) (open_store m f i faults d) _
      (open_store-Leaves m f i faults d)
      (λ t e q.
        Leaves-next m f (InFile m f) (IsReady m f)
          (set_password m f i.password faults.of_password t e) _
          (set_password-Leaves m f i.password faults.of_password t e q)
          (λ u g r. set_secret-Leaves m f i.token faults.of_secret u g law r)))
