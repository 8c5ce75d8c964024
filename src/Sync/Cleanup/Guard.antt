-- ===== src/Sync/Cleanup/Guard.antt =====
-- sync/cleanup.py asks for no deletion of an unmanaged object, and for no write in a dry run.
use netbox_monitor.Prelude.{ℕ, String, ◌≡◌, refl, true, false, ◌||◌, Option}
use netbox_monitor.Wire.Object.{Endpoint, Obj, Payload}
use netbox_monitor.Wire.Request.{Request, is_write}
use netbox_monitor.Effects.Only.{Only, only_pure, only_rules}
use netbox_monitor.Netbox.{Client, filter_tagged}
use netbox_monitor.Netbox.Guard.{Permitted, delete_if_managed-Permitted}
use netbox_monitor.Sync.Cleanup.{
  Selection, Progress, ip_site_slug, do_delete, delete_ip, delete_parent_ips, delete_counted,
  delete_parent, delete_remaining_ip, delete_cable, delete_managed,
}

-- The walk asks for reads, and for whatever the deletion of one object asks for.
module _ (timestamp : String → Option ℕ) (c : Client) (sel : Selection) (P : Request → Type 0)
    (clock : P Request.time) (gets : (e : Endpoint) (q : Payload) → P (Request.get e q))
    (filters : (e : Endpoint) (q : Payload) → P (Request.filter e q))
    (deletes : (o : Obj) → Only P (do_delete timestamp c sel o)) where
  ip_site_slug-Only : (o : Obj) → Only P (ip_site_slug o)
  unfolding ip_site_slug
  ip_site_slug-Only o = search (only_rules, gets)

  filter_tagged-Only : (e : Endpoint) (t : String) (x : Payload) → Only P (filter_tagged c e t x)
  unfolding filter_tagged
  filter_tagged-Only e t x = search (only_rules, filters)

  delete_ip-Only : (o : Obj) (p : Progress) → Only P (delete_ip timestamp c sel o p)
  unfolding delete_ip
  delete_ip-Only o p = search (only_rules, deletes)

  delete_parent_ips-Only :
      (i : ℕ) (k : String) (p : Progress) → Only P (delete_parent_ips timestamp c sel i k p)
  unfolding delete_parent_ips
  delete_parent_ips-Only i k p = search (only_rules, filters, delete_ip-Only)

  delete_counted-Only :
      (t : String) (o : Obj) (p : Progress) → Only P (delete_counted timestamp c sel t o p)
  unfolding delete_counted
  delete_counted-Only t o p = search (only_rules, deletes)

  delete_parent-Only :
      (t k : String) (f : Obj → String) (now : ℕ) (o : Obj) (p : Progress)
      → Only P (delete_parent timestamp c sel t k f now o p)
  unfolding delete_parent
  delete_parent-Only t k f now o p =
      search (only_rules, delete_parent_ips-Only, delete_counted-Only)

  delete_remaining_ip-Only :
      (now : ℕ) (o : Obj) (p : Progress) → Only P (delete_remaining_ip timestamp c sel now o p)
  unfolding delete_remaining_ip
  delete_remaining_ip-Only now o p = search (only_rules, ip_site_slug-Only, delete_ip-Only)

  delete_cable-Only :
      (now : ℕ) (o : Obj) (p : Progress) → Only P (delete_cable timestamp c sel now o p)
  unfolding delete_cable
  delete_cable-Only now o p = search (only_rules, delete_counted-Only)

  delete_managed-Only : Only P (delete_managed timestamp c sel)
  unfolding delete_managed
  delete_managed-Only =
      search
        (
          only_rules, clock, filter_tagged-Only, delete_parent-Only, delete_remaining_ip-Only,
          delete_cable-Only,
        )
        depth 8

module _ (timestamp : String → Option ℕ) (c : Client) (sel : Selection) where
  do_delete-Permitted : (o : Obj) → Only (Permitted c) (do_delete timestamp c sel o)
  unfolding do_delete
  do_delete-Permitted o = search (only_rules, delete_if_managed-Permitted)

  pub delete_managed-Permitted : Only (Permitted c) (delete_managed timestamp c sel)
  delete_managed-Permitted =
      delete_managed-Only timestamp c sel (Permitted c) tt (λ _ _. tt) (λ _ _. tt)
        do_delete-Permitted

-- what leaves NetBox as it is
abbrev pub IsRead : Request → Type 0
IsRead r = is_write r ≡ false

module _ (timestamp : String → Option ℕ) (c : Client) (sel : Selection) where
  do_delete-IsRead :
      (o : Obj) → (sel.dry_run || c.dry_run) ≡ true → Only IsRead (do_delete timestamp c sel o)
  unfolding do_delete
  do_delete-IsRead o dry = rw dry (only_pure true)

  -- With either dry-run switch on, nothing is written.
  pub delete_managed-IsRead :
      (sel.dry_run || c.dry_run) ≡ true → Only IsRead (delete_managed timestamp c sel)
  delete_managed-IsRead dry =
      delete_managed-Only timestamp c sel IsRead refl (λ _ _. refl) (λ _ _. refl)
        (λ o. do_delete-IsRead o dry)
