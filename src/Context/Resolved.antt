-- ===== src/Context/Resolved.antt =====
-- What `build_context` asks for and what it leaves of the sites.
use netbox_monitor.Prelude.{Bool, Option, List, [], ◌∷◌, ◌≡◌, refl, map}
use netbox_monitor.Effects.Only.{Only, only_rules}
use netbox_monitor.Effects.Ensures.{
  Ensures, ensures_pure, ensures_rules, Ensures-bind, Ensures-try_catch, Ensures-if,
}
use netbox_monitor.Netbox.{Client}
use netbox_monitor.Netbox.Guard.{Permitted, client_rules}
use netbox_monitor.Context.{
  SiteConfig, ResolvedSite, unresolved, with_override, resolve_site, resolve_site_ids,
  build_context,
}

module _ (c : Client) where
  resolve_site-Permitted : (site : ResolvedSite) → Only (Permitted c) (resolve_site c site)
  unfolding resolve_site
  resolve_site-Permitted site = search client_rules depth 8

  resolve_site_ids-Permitted :
      (sites : List ResolvedSite) → Only (Permitted c) (resolve_site_ids c sites)
  unfolding resolve_site_ids
  resolve_site_ids-Permitted [] = search only_rules
  resolve_site_ids-Permitted (site ∷ rest) =
      let others = resolve_site_ids-Permitted rest in
      search (only_rules, resolve_site-Permitted, others) depth 8

  resolve_site-config :
      (site : ResolvedSite) → Ensures (λ r. r.config ≡ site.config) (resolve_site c site)
  unfolding resolve_site
  resolve_site-config site = search (ensures_rules, ensures_pure, Ensures-try_catch) depth 8

  resolve_site_ids-configs :
      (sites : List ResolvedSite)
      → Ensures
          (λ rs. map (λ r. r.config) rs ≡ map (λ r. r.config) sites)
          (resolve_site_ids c sites)
  unfolding resolve_site_ids
  resolve_site_ids-configs [] = ensures_pure [] refl
  resolve_site_ids-configs (site ∷ rest) =
      Ensures-bind (resolve_site c site) _ (resolve_site-config site) (λ r p.
        Ensures-bind (resolve_site_ids c rest) _ (resolve_site_ids-configs rest)
          (λ rs q. ensures_pure (r ∷ rs) (λ i. p i ∷ q i)))

-- The context is built with the writes that the override, where there is one, allows.
build_context-Permitted :
    (c : Client) (override : Option Bool) (configured : Bool) (sites : List SiteConfig)
    → Only (Permitted (with_override override c)) (build_context c override configured sites)
unfolding build_context
build_context-Permitted c override configured sites =
    search (only_rules, resolve_site_ids-Permitted) depth 8

map-unresolved : (sites : List SiteConfig) → map (λ r. r.config) (map unresolved sites) ≡ sites
map-unresolved [] = refl
map-unresolved (s ∷ ss) = λ i. s ∷ map-unresolved ss i

-- The context has every site of the configuration, in its order, whether or not NetBox gave its id.
build_context-configs :
    (c : Client) (override : Option Bool) (configured : Bool) (sites : List SiteConfig)
    → Ensures
        (λ (netbox, rs). map (λ r. r.config) rs ≡ sites)
        (build_context c override configured sites)
unfolding build_context
build_context-configs c override configured sites =
    Ensures-if configured _ _
      (λ _.
        Ensures-bind (resolve_site_ids _ (map unresolved sites)) _
          (resolve_site_ids-configs _ (map unresolved sites))
          (λ rs p. ensures_pure _ (cc (p, map-unresolved sites))))
      (λ _. ensures_pure _ (map-unresolved sites))
