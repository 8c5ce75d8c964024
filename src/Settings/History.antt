-- ===== src/Settings/History.antt =====
-- A history of changes to the settings, with any faults, refines a sequence of commits: the file has the
-- last configuration that was committed, and the generation counts them.
use netbox_monitor.Prelude.{
  suc, ◌+◌, ◌≡◌, refl, ◌∙◌, ap, String, Bool, Option, none, some, List, [], ◌∷◌, arith, length,
  if◌then◌else◌, maybe, is_some, if-holds, maybe-holds,
}
use netbox_monitor.Settings.{
  Models, File, Disk, copy, restrict_backup, Fault, works, raises, tears, execute, backup_ops,
  Store, After, commit, install, replace, update_field, Call, replaces, updates, handle, noted,
  run_calls,
}
use netbox_monitor.Settings.Atomic.{stored, kept, execute-Save}

abbrev pub text_of : Option File → Option String
text_of o = maybe o none (λ f. some f.text)

copy-settings :
    (faults : List Fault) (d : Disk)
    → (execute (copy ∷ restrict_backup ∷ []) faults d).0.settings ≡ d.settings
unfolding execute
copy-settings [] d = refl
copy-settings (raises ∷ fs) d = refl
copy-settings (tears s ∷ fs) d = refl
copy-settings (works ∷ []) d = refl
copy-settings (works ∷ works ∷ fs) d = refl
copy-settings (works ∷ raises ∷ fs) d = refl
copy-settings (works ∷ tears s ∷ fs) d = refl

-- a backup leaves the settings alone
backup-settings :
    (backup : Bool) (faults : List Fault) (d : Disk)
    → (execute (if backup then backup_ops d else []) faults d).0.settings ≡ d.settings
unfolding execute
backup-settings backup faults d =
    if-holds (λ ops. (execute ops faults d).0.settings ≡ d.settings) backup (backup_ops d) []
      (λ _.
        if-holds (λ ops. (execute ops faults d).0.settings ≡ d.settings) (is_some d.settings)
          (copy ∷ restrict_backup ∷ []) [] (λ _. copy-settings faults d) (λ _. refl))
      (λ _. refl)

module _ (m : Models) where
  -- What one call did to the file and to the generation.
  pub data Outcome (s : Store m) (d : Disk) (a : After m) : Type 0 where
    committed :
        (c : m.Config)
        → a.committed ≡ some c
        → a.store ≡ record { config = c; generation = suc s.generation }
        → text_of a.disk.settings ≡ some (m.text c)
        → Outcome s d a
    refused :
        a.committed ≡ none
        → a.store.generation ≡ s.generation
        → text_of a.disk.settings ≡ text_of d.settings
        → Outcome s d a

  commit-Outcome :
      (c : m.Config) (faults : List Fault) (s : Store m) (d : Disk)
      → Outcome s d (commit m c faults s d)
  unfolding commit
  commit-Outcome c faults s d = elim (execute-Save (m.text c) faults d) [
    | stored e t ↦ rw e (committed c refl refl (ap text_of t))
    | kept e t ↦ rw e (refused refl refl (ap text_of t))
  ]

  install-Outcome :
      (c : m.Config) (faults : List Fault) (s : Store m) (d : Disk)
      → Outcome s d (install m c faults s d)
  unfolding install
  install-Outcome c faults s d =
      maybe-holds (Outcome s d) (m.validate c) _ _ (refused refl refl refl)
        (λ v. commit-Outcome v faults s d)

  -- an outcome after a backup
  moved :
      (s : Store m) (d e : Disk) (a : After m)
      → e.settings ≡ d.settings
      → Outcome s e a
      → Outcome s d a
  moved s d e a same (committed c x y z) = committed c x y z
  moved s d e a same (refused x y z) = refused x y (z ∙ ap text_of same)

  pub handle-Outcome : (call : Call m) (s : Store m) (d : Disk) → Outcome s d (handle m call s d)
  unfolding handle replace update_field
  handle-Outcome (replaces c backup bf f) s d =
      let same = backup-settings backup bf d in
      if-holds (Outcome s d) (execute (if backup then backup_ops d else []) bf d).1 _ _
        (λ _. moved s d _ _ same (install-Outcome c f s _))
        (λ _. refused refl refl (ap text_of same))
  handle-Outcome (updates mutator f) s d = install-Outcome (mutator s.config) f s d

  -- the file that the last of the commits wrote, or the one before
  abbrev pub last_text : Option String → List m.Config → Option String
  last_text before [] = before
  last_text before (c ∷ cs) = last_text (some (m.text c)) cs

  -- The store and the disk after some calls, with the configurations that these committed.
  abbrev pub Refines : Store m → Disk → Store m × Disk × List m.Config → Type 0
  Refines s d (t, e, cs) =
      (t.generation ≡ s.generation + length cs)
      × (text_of e.settings ≡ last_text (text_of d.settings) cs)

  joined :
      (s : Store m) (d : Disk) (a : After m) (t : Store m) (e : Disk) (cs : List m.Config)
      → Outcome s d a
      → Refines a.store a.disk (t, e, cs)
      → Refines s d (t, e, noted m a.committed cs)
  joined s d a t e cs (committed c x y z) r =
      rw x (omega (arith, r.0, ap (λ st. st.generation) y), r.1 ∙ ap (λ b. last_text b cs) z)
  joined s d a t e cs (refused x y z) r =
      rw x (omega (arith, r.0, y), r.1 ∙ ap (λ b. last_text b cs) z)

-- Whatever calls are made and whatever goes wrong in them, the file has the text of the last
-- configuration that was committed, or is as it was if none was, and the generation has grown by the
-- number of the configurations that were committed.
pub run_calls-Refines :
    (m : Models) (calls : List (Call m)) (s : Store m) (d : Disk)
    → Refines m s d (run_calls m calls s d)
unfolding run_calls
run_calls-Refines m [] s d = (omega arith, refl)
run_calls-Refines m (call ∷ calls) s d =
    let a = handle m call s d in
    let (t, e, cs) = run_calls m calls a.store a.disk in
    joined m s d a t e cs (handle-Outcome m call s d) (run_calls-Refines m calls a.store a.disk)
