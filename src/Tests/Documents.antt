-- ===== src/Tests/Documents.antt =====
-- The theorems on configurations and their exports at concrete inputs.
use netbox_monitor.Prelude.{◌≡◌, refl, true, All, inr}
use netbox_monitor.Json.{
  Fields, num, bool, str, arr, obj, no_items, item, no_fields, field, get, set, change, remove,
}
use netbox_monitor.Config.{
  migrate_to_current, detect_schema, upgrade, migrate_legacy, section, with_site, legacy_site,
  slugify_site,
}
use netbox_monitor.Netbox.Slug.{slugify_or}
use netbox_monitor.Config.Laws.{migrate_to_current-settles}
use netbox_monitor.Transfer.Redact.{secret_paths, redacted_export}
use netbox_monitor.Transfer.Secret.{AllAt, IsHidden}
use netbox_monitor.Transfer.Hidden.{redacted_export-hides}

-- a flat configuration of the first schema
abbrev flat : Fields
flat =
    field "netbox" (obj (field "default_site" (str "Lab 1") (field "token" (str "abc") no_fields)))
      (field "technitium" (obj (field "token" (str "s3cret") no_fields))
        (field "webui" (obj (field "session_secret" (str "xyz") no_fields)) no_fields))

abbrev migrated_flat : Fields
migrated_flat =
    field "netbox" (obj (field "default_site" (str "Lab 1") (field "token" (str "abc") no_fields)))
      (field "webui" (obj (field "session_secret" (str "xyz") no_fields)) (
        field "sites"
          (arr (
            item
              (obj (
                field "id" (str "lab-1") (
                  field "name" (str "Lab 1") (
                    field "netbox_site" (str "lab-1") (
                      field "netbox_site_name" (str "Lab 1") (
                        field "discovery"
                          (obj (
                            field "enabled" (bool true) (
                              field "include_prefixes" (arr no_items)
                                (field "exclude_prefixes" (arr no_items) no_fields))))
                          (field "technitium" (obj (field "token" (str "s3cret") no_fields))
                            no_fields)))))))
              no_items))
          (field "schema_version" (num 2) no_fields)))

migrate_flat : migrate_to_current flat ≡ inr migrated_flat
unfolding migrate_to_current detect_schema get upgrade migrate_legacy section set with_site change
    remove legacy_site slugify_site slugify_or
migrate_flat = refl

migrate_to_current-settles_example : migrate_to_current migrated_flat ≡ inr migrated_flat
migrate_to_current-settles_example = migrate_to_current-settles flat migrated_flat migrate_flat

redacted_export-hides_example :
    All (λ p. AllAt IsHidden p (redacted_export migrated_flat)) secret_paths
redacted_export-hides_example = redacted_export-hides migrated_flat
