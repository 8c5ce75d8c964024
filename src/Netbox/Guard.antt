-- ===== src/Netbox/Guard.antt =====
-- The two central rules of clients/netbox.py, for each method of the client: no write in dry-run
-- mode, and no deletion of an object that does not carry the managed tag.
use netbox_monitor.Prelude.{
  String, Bool, ◌≡◌, true, false, not, Option, some, List, [], ◌∷◌, Dict, mem, arith, if◌then◌else◌,
}
use netbox_monitor.Wire.Object.{Endpoint, Obj, Payload}
use netbox_monitor.Wire.Request.{Request}
use netbox_monitor.Effects.{pure, ask}
use netbox_monitor.Effects.Only.{Only, only_pure, Only-if, Only-delete, only_rules}
use netbox_monitor.Netbox.{
  Client, managed_tag_slug, obj_tag_slugs, is_managed, tag_ids, create, update, delete,
  delete_if_managed, add_tags, remove_tags, set_custom_fields, filter_tagged, ensure, journal,
}

-- What a client may ask for: a write in a live run only, and the deletion of a managed object only.
-- A switch is contacted by no function that has to do with NetBox alone.
abbrev pub Permitted : Client → Request → Type 0
Permitted c (Request.create e d) = c.dry_run ≡ false
Permitted c (Request.update o d) = c.dry_run ≡ false
Permitted c (Request.delete o) =
    (c.dry_run ≡ false) × (mem managed_tag_slug (obj_tag_slugs o) ≡ true)
Permitted c (Request.collect d h u w k) = ⊥
Permitted c (Request.collect_macs d h u w k) = ⊥
Permitted c _ = Unit {0}

module _ (c : Client) where
  pub create-Permitted : (e : Endpoint) (d : Payload) → Only (Permitted c) (create c e d)
  unfolding create
  create-Permitted e d = search only_rules

  pub update-Permitted : (o : Obj) (d : Payload) → Only (Permitted c) (update c o d)
  unfolding update
  update-Permitted o d = search only_rules

  managed_of :
      (o : Obj) (s : Option String)
      → not (is_managed o s) ≡ false
      → mem managed_tag_slug (obj_tag_slugs o) ≡ true
  unfolding is_managed
  managed_of o s h = ground arith

  -- a guarded deletion is permitted
  guarded :
      (o : Obj) (b : Bool)
      → (b ≡ false → mem managed_tag_slug (obj_tag_slugs o) ≡ true)
      → Only
          (Permitted c)
          (if b then pure false else if c.dry_run then pure false else ask (Request.delete o))
  guarded o b managed =
      Only-if b _ _ (λ _. only_pure _)
        (λ m. Only-if c.dry_run _ _ (λ _. only_pure _) (λ live. Only-delete o (live, managed m)))

  pub delete-Permitted : (o : Obj) (s : String) → Only (Permitted c) (delete c o s)
  unfolding delete
  delete-Permitted o s = guarded o _ (managed_of o (some s))

  pub delete_if_managed-Permitted : (o : Obj) → Only (Permitted c) (delete_if_managed c o)
  unfolding delete_if_managed
  delete_if_managed-Permitted o = guarded o _ (λ m. ground arith)

  pub tag_ids-Permitted : (slugs : List String) → Only (Permitted c) (tag_ids c slugs)
  unfolding tag_ids
  tag_ids-Permitted [] = search only_rules
  tag_ids-Permitted (s ∷ slugs) = let rest = tag_ids-Permitted slugs in search only_rules

  pub add_tags-Permitted : (o : Obj) (s : List String) → Only (Permitted c) (add_tags c o s)
  unfolding add_tags
  add_tags-Permitted o s = search (only_rules, tag_ids-Permitted, update-Permitted)

  pub remove_tags-Permitted : (o : Obj) (s : List String) → Only (Permitted c) (remove_tags c o s)
  unfolding remove_tags
  remove_tags-Permitted o s = search (only_rules, update-Permitted)

  pub set_custom_fields-Permitted :
      (o : Obj) (d : Dict String) → Only (Permitted c) (set_custom_fields c o d)
  unfolding set_custom_fields
  set_custom_fields-Permitted o s = search (only_rules, update-Permitted)

  pub filter_tagged-Permitted :
      (e : Endpoint) (t : String) (x : Payload) → Only (Permitted c) (filter_tagged c e t x)
  unfolding filter_tagged
  filter_tagged-Permitted e t x = search (only_rules, tt)

  pub ensure-Permitted : (e : Endpoint) (x y : Payload) → Only (Permitted c) (ensure c e x y)
  unfolding ensure
  ensure-Permitted e t x = search (only_rules, tt, create-Permitted)

  pub journal-Permitted : (o : Obj) (x y : String) → Only (Permitted c) (journal c o x y)
  unfolding journal
  journal-Permitted o x y = search only_rules

-- The rules by which `search` shows that a function of the program keeps to `Permitted`.
pub ruleset client_rules = (
  only_rules, tt, create-Permitted, update-Permitted, delete-Permitted, delete_if_managed-Permitted,
  add_tags-Permitted, remove_tags-Permitted, set_custom_fields-Permitted, filter_tagged-Permitted,
  ensure-Permitted, journal-Permitted, tag_ids-Permitted,
)
