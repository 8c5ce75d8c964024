-- ===== src/Settings/Atomic.antt =====
-- A save of the settings is all or nothing, and what it saves is private.
use netbox_monitor.Prelude.{◌≡◌, refl, String, Bool, true, false, some, List, [], ◌∷◌}
use netbox_monitor.Settings.{Disk, Fault, works, raises, tears, first, later, execute, persist_ops}

abbrev pub is_working : Fault → Bool
is_working works = true
is_working _ = false

-- What a save did: it put the new text in place, private where `chmod` worked, or it stopped with the
-- settings as they were.
pub data Save (text : String) (faults : List Fault) (d d' : Disk) (done : Bool) : Type 0 where
  stored :
      done ≡ true
      → d'.settings ≡ some (record { text = text; private = is_working (first (later faults)) })
      → Save text faults d d' done
  kept : done ≡ false → d'.settings ≡ d.settings → Save text faults d d' done

pub execute-Save :
    (text : String) (faults : List Fault) (d : Disk)
    → let (d', done) = execute (persist_ops text) faults d in Save text faults d d' done
unfolding execute
execute-Save text [] d = stored refl refl
execute-Save text (raises ∷ fs) d = kept refl refl
execute-Save text (tears s ∷ fs) d = kept refl refl
execute-Save text (works ∷ []) d = stored refl refl
execute-Save text (works ∷ tears s ∷ fs) d = kept refl refl
execute-Save text (works ∷ works ∷ []) d = stored refl refl
execute-Save text (works ∷ works ∷ works ∷ fs) d = stored refl refl
execute-Save text (works ∷ works ∷ raises ∷ fs) d = kept refl refl
execute-Save text (works ∷ works ∷ tears s ∷ fs) d = kept refl refl
execute-Save text (works ∷ raises ∷ []) d = stored refl refl
execute-Save text (works ∷ raises ∷ works ∷ fs) d = stored refl refl
execute-Save text (works ∷ raises ∷ raises ∷ fs) d = kept refl refl
execute-Save text (works ∷ raises ∷ tears s ∷ fs) d = kept refl refl
