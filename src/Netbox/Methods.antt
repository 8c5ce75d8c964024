-- ===== src/Netbox/Methods.antt =====
-- The requests of the client's methods, for any predicate on requests: what has to be shown of the
-- requests that a method makes. The methods that delete are in Netbox.Guard.
use netbox_monitor.Prelude.{String, ◌≡◌, false, List, [], ◌∷◌, Dict}
use netbox_monitor.Wire.Object.{Endpoint, Obj, Payload}
use netbox_monitor.Wire.Request.{Request}
use netbox_monitor.Effects.Only.{Only, only_rules}
use netbox_monitor.Netbox.{
  Client, tag_ids, create, update, add_tags, remove_tags, set_custom_fields, filter_tagged, ensure,
  journal,
}

module _ (c : Client) (P : Request → Type 0)
    (creates : (e : Endpoint) (d : Payload) → c.dry_run ≡ false → P (Request.create e d))
    (updates : (o : Obj) (d : Payload) → c.dry_run ≡ false → P (Request.update o d))
    (gets : (e : Endpoint) (q : Payload) → P (Request.get e q))
    (filters : (e : Endpoint) (q : Payload) → P (Request.filter e q)) where
  pub create-Only : (e : Endpoint) (d : Payload) → Only P (create c e d)
  unfolding create
  create-Only e d = search (only_rules, creates)

  pub update-Only : (o : Obj) (d : Payload) → Only P (update c o d)
  unfolding update
  update-Only o d = search (only_rules, updates)

  pub tag_ids-Only : (slugs : List String) → Only P (tag_ids c slugs)
  unfolding tag_ids
  tag_ids-Only [] = search only_rules
  tag_ids-Only (s ∷ slugs) = let rest = tag_ids-Only slugs in search only_rules

  pub add_tags-Only : (o : Obj) (s : List String) → Only P (add_tags c o s)
  unfolding add_tags
  add_tags-Only o s = search (only_rules, tag_ids-Only, update-Only)

  pub remove_tags-Only : (o : Obj) (s : List String) → Only P (remove_tags c o s)
  unfolding remove_tags
  remove_tags-Only o s = search (only_rules, update-Only)

  pub set_custom_fields-Only : (o : Obj) (d : Dict String) → Only P (set_custom_fields c o d)
  unfolding set_custom_fields
  set_custom_fields-Only o d = search (only_rules, update-Only)

  pub filter_tagged-Only :
      (e : Endpoint) (t : String) (x : Payload) → Only P (filter_tagged c e t x)
  unfolding filter_tagged
  filter_tagged-Only e t x = search (only_rules, filters)

  pub ensure-Only : (e : Endpoint) (x y : Payload) → Only P (ensure c e x y)
  unfolding ensure
  ensure-Only e x y = search (only_rules, gets, create-Only)

  pub journal-Only : (o : Obj) (x y : String) → Only P (journal c o x y)
  unfolding journal
  journal-Only o x y = search (only_rules, creates) depth 8
