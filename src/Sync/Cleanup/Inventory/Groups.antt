-- ===== src/Sync/Cleanup/Inventory/Groups.antt =====
-- The rows of the inventory: one for each group, with counts in order.
use netbox_monitor.Prelude.{
  ℕ, ◌≤◌, String, ◌≡◌, refl, Bool, true, false, ◌&&◌, ◌||◌, Option, List, [], ◌∷◌, ◌==◌, arith,
  eq_iff, Bool-cases, inl, inr, ◌∙◌, if-holds,
}
use netbox_monitor.Wire.Object.{Endpoint, Obj}
use netbox_monitor.Effects.{Prog}
use netbox_monitor.Effects.Ensures.{
  Ensures, Holds, ensures_pure, Ensures-run, Ensures-then, Ensures-bind, Ensures-for_each,
}
use netbox_monitor.Effects.Run.{Environment, run}
use netbox_monitor.Netbox.{Client}
use netbox_monitor.Sync.Cleanup.Inventory.{
  GroupRow, same_group, row_of, bump, before_row, insert_row, sort_rows, count_objects, inventory,
}

abbrev has_key : String → String → String → List GroupRow → Bool
has_key t i u [] = false
has_key t i u (row ∷ rows) =
    row.object_type == t && row.site == i && row.source == u || has_key t i u rows

abbrev pub has_group : GroupRow → List GroupRow → Bool
has_group r rows = has_key r.object_type r.site r.source rows

-- The group of a row occurs once, and no group has more stale or unseen objects than objects.
abbrev pub IsGrouped : List GroupRow → Type 0
IsGrouped [] = Unit
IsGrouped (row ∷ rows) =
    (has_group row rows ≡ false)
    × (row.stale ≤ row.count)
    × (row.not_seen_30d ≤ row.count)
    × IsGrouped rows

same_group_trans : (a b r : GroupRow) → same_group a b ≡ true → same_group a r ≡ same_group b r
same_group_trans a b r h =
    ground
      (arith, h, eq_iff a.object_type b.object_type, eq_iff a.site b.site, eq_iff a.source b.source)

has_group-bump :
    (new r : GroupRow) (rows : List GroupRow)
    → has_group r (bump new rows) ≡ (has_group r rows || same_group new r)
unfolding bump
has_group-bump new r [] = ground arith
has_group-bump new r (row ∷ rows) = elim (Bool-cases (same_group row new)) [
  | inl same ↦ rw same (ground (arith, same_group_trans row new r same))
  | inr other ↦ rw other (ground (arith, has_group-bump new r rows))
]

same_group_sym : (a b : GroupRow) → same_group a b ≡ same_group b a
same_group_sym a b = ground (
  arith,
  eq_iff a.object_type b.object_type,
  eq_iff b.object_type a.object_type,
  eq_iff a.site b.site,
  eq_iff b.site a.site,
  eq_iff a.source b.source,
  eq_iff b.source a.source,
)

-- a row whose counts are in order
abbrev IsRow : GroupRow → Type 0
IsRow row = (row.stale ≤ row.count) × (row.not_seen_30d ≤ row.count)

bump-IsGrouped :
    (new : GroupRow) (rows : List GroupRow) → IsRow new → IsGrouped rows → IsGrouped (bump new rows)
unfolding bump
bump-IsGrouped new [] n h = (refl, n.0, n.1, tt)
bump-IsGrouped new (row ∷ rows) n (fresh, stale, unseen, h) =
    elim (Bool-cases (same_group row new)) [
      | inl same ↦ rw same (fresh, omega (arith, stale, n.0), omega (arith, unseen, n.1), h)
      | inr other ↦ rw other (
        has_group-bump new row rows ∙ ground (arith, fresh, same_group_sym new row, other),
        stale,
        unseen,
        bump-IsGrouped new rows n h,
      )
    ]

has_group-insert_row :
    (new r : GroupRow) (rows : List GroupRow)
    → has_group r (insert_row new rows) ≡ (same_group new r || has_group r rows)
unfolding insert_row
has_group-insert_row new r [] = refl
has_group-insert_row new r (row ∷ rows) = ground (arith, has_group-insert_row new r rows)

insert_row-IsGrouped :
    (new : GroupRow) (rows : List GroupRow)
    → IsRow new
    → has_group new rows ≡ false
    → IsGrouped rows
    → IsGrouped (insert_row new rows)
unfolding insert_row
insert_row-IsGrouped new [] n f h = (refl, n.0, n.1, tt)
insert_row-IsGrouped new (row ∷ rows) n f (fresh, stale, unseen, h) =
    if-holds IsGrouped (before_row new row) _ _ (λ _. (f, n.0, n.1, (fresh, stale, unseen, h)))
      λ _. (
        has_group-insert_row new row rows ∙ ground (arith, f, fresh, same_group_sym new row),
        stale,
        unseen,
        insert_row-IsGrouped new rows n (ground (arith, f)) h,
      )

has_group-sort_rows :
    (r : GroupRow) (rows : List GroupRow) → has_group r (sort_rows rows) ≡ has_group r rows
unfolding sort_rows
has_group-sort_rows r [] = refl
has_group-sort_rows r (row ∷ rows) =
    has_group-insert_row row r (sort_rows rows) ∙ ground (arith, has_group-sort_rows r rows)

sort_rows-IsGrouped : (rows : List GroupRow) → IsGrouped rows → IsGrouped (sort_rows rows)
unfolding sort_rows
sort_rows-IsGrouped [] h = tt
sort_rows-IsGrouped (row ∷ rows) (fresh, stale, unseen, h) =
    insert_row-IsGrouped row (sort_rows rows) (stale, unseen) (has_group-sort_rows row rows ∙ fresh)
      (sort_rows-IsGrouped rows h)

row_of-IsRow :
    (timestamp : String → Option ℕ) (now : ℕ) (t site : String) (o : Obj)
    → IsRow (row_of timestamp now t site o)
unfolding row_of
row_of-IsRow timestamp now t site o = (ground arith, ground arith)

module _ (timestamp : String → Option ℕ) (c : Client) where
  count_objects-IsGrouped :
      (now : ℕ) (e : Endpoint) (t : String) (site_of : Obj → Prog String) (rows : List GroupRow)
      → IsGrouped rows
      → Ensures IsGrouped (count_objects timestamp c now e t site_of rows)
  unfolding count_objects
  count_objects-IsGrouped now e t site_of rows h = Ensures-then _ _ λ objs.
      Ensures-for_each objs rows _ h λ o groups g.
        Ensures-then _ _
          λ site. ensures_pure _ (bump-IsGrouped _ groups (row_of-IsRow timestamp now t site o) g)

  inventory-Ensures : Ensures IsGrouped (inventory timestamp c)
  unfolding inventory
  inventory-Ensures = Ensures-then _ _ λ now.
      Ensures-bind {Q = IsGrouped} _ _ (count_objects-IsGrouped now _ _ _ [] tt) λ a ha.
        Ensures-bind {Q = IsGrouped} _ _ (count_objects-IsGrouped now _ _ _ a ha) λ b hb.
          Ensures-bind {Q = IsGrouped} _ _ (count_objects-IsGrouped now _ _ _ b hb) λ d hd.
            Ensures-bind {Q = IsGrouped} _ _ (count_objects-IsGrouped now _ _ _ d hd)
              λ rows h. ensures_pure _ (sort_rows-IsGrouped rows h)

-- Whatever NetBox answers, the rows of the inventory have different groups, and none has more stale
-- objects, or more objects not seen for 30 days, than objects.
pub inventory-IsGrouped :
    {S : Type 0} (timestamp : String → Option ℕ) (c : Client) (env : Environment S) (s : S)
    → Holds IsGrouped (run env (inventory timestamp c) s).result
inventory-IsGrouped timestamp c env s = Ensures-run env _ s (inventory-Ensures timestamp c)
