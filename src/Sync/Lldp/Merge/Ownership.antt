-- ===== src/Sync/Lldp/Merge/Ownership.antt =====
-- Which of two records of one switch a merge gives up.
use netbox_monitor.Prelude.{
  ◌≡◌, refl, sym, Bool, true, false, not, ◌&&◌, ◌||◌, none, some, ◌⊎◌, inl, inr, arith,
  some-injective, if◌then◌else◌,
}
use netbox_monitor.Wire.Object.{Obj}
use netbox_monitor.Netbox.{is_managed}
use netbox_monitor.Sync.Lldp.Merge.{Direction, merge_direction, keep_other, keep_polled}

-- The loser carries the managed tag; a device that does not is the one that is kept; and the two are
-- the two devices.
abbrev pub IsOwned : Obj → Obj → Direction → Type 0
IsOwned polled other d =
    (is_managed d.lose none ≡ true)
    × ((is_managed polled none && is_managed other none || not (is_managed d.keeper none)) ≡ true)
    × ((d ≡ keep_other polled other) ⊎ (d ≡ keep_polled polled other))

module _ (polled other : Obj) where
  keep_other-IsOwned :
      is_managed polled none ≡ true → IsOwned polled other (keep_other polled other)
  keep_other-IsOwned p = (p, ground (arith, p), inl refl)

  keep_polled-IsOwned :
      is_managed other none ≡ true → IsOwned polled other (keep_polled polled other)
  keep_polled-IsOwned p = (p, ground (arith, p), inr refl)

  chosen :
      (a b seed : Bool) (d : Direction)
      → is_managed polled none ≡ a
      → is_managed other none ≡ b
      → (if a && not b
          then some (keep_other polled other)
          else if b && not a
          then some (keep_polled polled other)
          else if a && b
          then some (if seed then keep_other polled other else keep_polled polled other)
          else none)
        ≡ some d
      → IsOwned polled other d
  chosen true false seed d p q h = rw (sym (some-injective h)) (keep_other-IsOwned p)
  chosen false true seed d p q h = rw (sym (some-injective h)) (keep_polled-IsOwned q)
  chosen true true true d p q h = rw (sym (some-injective h)) (keep_other-IsOwned p)
  chosen true true false d p q h = rw (sym (some-injective h)) (keep_polled-IsOwned q)
  chosen false false seed d p q h = absurd (ground (arith, h))

-- The record that a merge gives up carries the managed tag; a record that a human keeps is never
-- given up for one that is ours; and the record kept and the one given up are the two devices.
pub merge_direction-IsOwned :
    (polled other : Obj) (d : Direction)
    → merge_direction polled other ≡ some d
    → IsOwned polled other d
unfolding merge_direction
merge_direction-IsOwned polled other d h = chosen polled other _ _ _ d refl refl h
