-- ===== src/Sync/Cleanup/Inventory.antt =====
-- sync/cleanup.py: `inventory`, the managed objects in groups.
pub mod Groups
use netbox_monitor.Prelude.{
  ℕ, ◌+◌, ◌≤◌, ◌<◌, String, ◌≡◌, refl, Bool, true, false, ◌&&◌, ◌||◌, Option, List, [], ◌∷◌, All,
  ◌==◌, ltb, ◌=?◌, if◌then◌else◌, mem, codes, arith, eq_iff, Bool-cases, inl, inr, ◌∙◌, if-holds,
}
use netbox_monitor.Wire.Object.{Endpoint, Obj}
use netbox_monitor.Wire.Request.{Request}
use netbox_monitor.Effects.{Prog, pure, ask, ◌>>=◌, for_each}
use netbox_monitor.Effects.Ensures.{
  Ensures, Holds, ensures_pure, Ensures-run, Ensures-then, Ensures-bind, Ensures-for_each,
}
use netbox_monitor.Effects.Run.{Environment, run}
use netbox_monitor.Netbox.{Client, managed_tag_slug, stale_tag_slug, obj_tag_slugs, filter_tagged}
use netbox_monitor.Sync.Cleanup.{
  no_site, source_of, device_site_slug, cluster_site_slug, ip_site_slug, seen_days_ago,
}

pub record GroupRow : Type 0 where
  pub object_type : String
  pub site : String
  pub source : String
  pub count : ℕ
  pub stale : ℕ
  pub not_seen_30d : ℕ

abbrev pub same_group : GroupRow → GroupRow → Bool
same_group a b = a.object_type == b.object_type && a.site == b.site && a.source == b.source

abbrev pub one_if : Bool → ℕ
one_if b = if b then 1 else 0

-- The row of one object, as a group of its own.
unfoldable pub row_of : (String → Option ℕ) → ℕ → String → String → Obj → GroupRow
row_of timestamp now object_type site obj = record {
  object_type = object_type;
  site = site;
  source = source_of obj;
  count = 1;
  stale = one_if (mem stale_tag_slug (obj_tag_slugs obj));
  not_seen_30d = one_if (seen_days_ago timestamp obj now 30);
}

-- `bump`: the object's row is added to that of its group, or is the first of a new one.
unfoldable pub bump : GroupRow → List GroupRow → List GroupRow
bump new [] = new ∷ []
bump new (row ∷ rows) =
    let rest = bump new rows in
    if same_group row new
    then record row {
      count = row.count + new.count;
      stale = row.stale + new.stale;
      not_seen_30d = row.not_seen_30d + new.not_seen_30d;
    }
      ∷ rows
    else row ∷ rest

-- the order of texts, by code points
abbrev before_codes : List ℕ → List ℕ → Bool
before_codes [] [] = false
before_codes [] (y ∷ ys) = true
before_codes (x ∷ xs) [] = false
before_codes (x ∷ xs) (y ∷ ys) = let rest = before_codes xs ys in ltb x y || x =? y && rest

abbrev before_text : String → String → Bool
before_text a b = before_codes (codes a) (codes b)

-- the order of the keys `(site, object_type, source)`
abbrev pub before_row : GroupRow → GroupRow → Bool
before_row a b =
    before_text a.site b.site
    || a.site == b.site
      && (before_text a.object_type b.object_type
          || a.object_type == b.object_type && before_text a.source b.source)

unfoldable pub insert_row : GroupRow → List GroupRow → List GroupRow
insert_row new [] = new ∷ []
insert_row new (row ∷ rows) =
    let rest = insert_row new rows in if before_row new row then new ∷ row ∷ rows else row ∷ rest

-- `sorted(groups.values(), key=…)`; no two rows have one key
unfoldable pub sort_rows : List GroupRow → List GroupRow
sort_rows [] = []
sort_rows (row ∷ rows) = insert_row row (sort_rows rows)

module _ (timestamp : String → Option ℕ) (c : Client) where
  -- One of the four loops.
  unfoldable pub count_objects :
      ℕ → Endpoint → String → (Obj → Prog String) → List GroupRow → Prog (List GroupRow)
  count_objects now endpoint object_type site_of rows = do
    objs ← filter_tagged c endpoint managed_tag_slug []
    for_each objs rows (λ obj groups. do
      site ← site_of obj
      pure (bump (row_of timestamp now object_type site obj) groups))

  unfoldable pub inventory : Prog (List GroupRow)
  inventory = do
    now ← ask Request.time
    a ← count_objects now Endpoint.devices "devices" (λ o. pure (device_site_slug o)) []
    b ←
        count_objects now Endpoint.virtual_machines "virtual_machines"
          (λ o. pure (cluster_site_slug o)) a
    d ← count_objects now Endpoint.ip_addresses "ip_addresses" ip_site_slug b
    rows ← count_objects now Endpoint.cables "cables" (λ _. pure no_site) d
    pure (sort_rows rows)
