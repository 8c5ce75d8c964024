-- ===== src/Context.antt =====
-- context.py: the sites of the configuration and their ids in NetBox. The clients, the state database
-- and the vendor table that `build_context` puts beside them are parts of the modules' own setups.
pub mod Resolved
use netbox_monitor.Prelude.{
  ℕ, String, Bool, Option, none, some, List, [], ◌∷◌, map, maybe, non_empty, if◌then◌else◌,
}
use netbox_monitor.Wire.Object.{Endpoint, Obj, text}
use netbox_monitor.Effects.{Prog, pure, try_catch, ◌>>=◌}
use netbox_monitor.Netbox.{Client, ensure}
use netbox_monitor.Netbox.Slug.{slugify}

-- What the resolution reads of `SiteConfig`.
pub record SiteConfig : Type 0 where
  pub name : String
  pub netbox_site : String
  pub netbox_site_name : String

pub record ResolvedSite : Type 0 where
  pub config : SiteConfig
  pub netbox_site_id : Option ℕ

abbrev pub or_text : String → String → String
or_text s t = if non_empty s then s else t

-- `name`
abbrev pub display_name : SiteConfig → String
display_name cfg = or_text cfg.netbox_site_name cfg.name

-- `slug`
abbrev pub site_slug : SiteConfig → String
site_slug cfg = or_text cfg.netbox_site (slugify (display_name cfg))

-- the body of the loop
unfoldable pub resolve_site : Client → ResolvedSite → Prog ResolvedSite
resolve_site c site =
    try_catch
      (do
        obj ←
            ensure c Endpoint.sites (("slug", text (site_slug site.config)) ∷ [])
              (("name", text (display_name site.config)) ∷ ("status", text "active") ∷ [])
        pure (record site { netbox_site_id = maybe obj none (λ o. some o.id) }))
      (λ _. pure site)

unfoldable pub resolve_site_ids : Client → List ResolvedSite → Prog (List ResolvedSite)
resolve_site_ids c [] = pure []
resolve_site_ids c (site ∷ rest) = do
  resolved ← resolve_site c site
  others ← resolve_site_ids c rest
  pure (resolved ∷ others)

-- `ResolvedSite(config=s)`
abbrev pub unresolved : SiteConfig → ResolvedSite
unresolved cfg = record { config = cfg; netbox_site_id = none }

-- `NetBoxClient(config.netbox, dry_run=config.dry_run)`, with the override
abbrev pub with_override : Option Bool → Client → Client
with_override override c = maybe override c (λ dry_run. record c { dry_run = dry_run })

unfoldable pub build_context :
    Client → Option Bool → Bool → List SiteConfig → Prog (Client × List ResolvedSite)
build_context c override configured sites =
    let netbox = with_override override c in
    if configured
    then (do resolved ← resolve_site_ids netbox (map unresolved sites); pure (netbox, resolved))
    else pure (netbox, map unresolved sites)
