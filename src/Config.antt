-- ===== src/Config.antt =====
-- config.py: the migrations of a serialized configuration. A document is a dictionary at its top.
pub mod Laws
use Prim.Native.Char.{code}
use netbox_monitor.Prelude.{
  ℕ, zero, suc, ◌+◌, ◌-◌, ◌*◌, String, Bool, true, false, not, ◌&&◌, ◌||◌, Option, none, some, List,
  [], ◌∷◌, ◌⊎◌, inl, inr, either, if◌then◌else◌, maybe, is_some, leb, ltb, ◌=?◌, is_empty,
}
use netbox_monitor.Netbox.Slug.{lower, strip, strip_left, strip_right, is_space, slugify_or}
use netbox_monitor.Json.{
  Json, Items, Fields, null, bool, num, minus, str, arr, obj, no_items, item, no_fields, field,
  is_true, get, set, remove, change,
}

abbrev pub config_schema_version : ℕ
config_schema_version = 2

-- Why a configuration is not migrated.
pub data MigrationError : Type 0 where
  too_new : ℕ → MigrationError
  bad_version : MigrationError  -- `ConfigMigrationError`
  no_step : ℕ → MigrationError
  wrong_type : MigrationError  -- an `AttributeError` on a value of another type

infixl 10 ◌then◌
abbrev pub ◌then◌ :
    {A B : Type 0} → MigrationError ⊎ A → (A → MigrationError ⊎ B) → MigrationError ⊎ B
m then f = either m inl f

abbrev is_digit : ℕ → Bool
is_digit c = leb b'0' c && leb c b'9'

-- Decimal digits with single underscores between them; the flag says that the character before is
-- a digit.
abbrev pub digits : ℕ → Bool → String → Option ℕ
digits n after String.[] = if after then some n else none
digits n after (String.◌∷◌ c s) =
    let next = digits (n * 10 + (code c - b'0')) true s in
    let skip = digits n false s in
    if is_digit (code c) then next else if after && code c =? b'_' then skip else none

-- `int(s)`, with 0 for a negative number: both are below the first version
abbrev signed : String → Option ℕ
signed String.[] = none
signed (String.◌∷◌ c s) =
    if code c =? b'-'
    then maybe (digits 0 false s) none (λ _. some 0)
    else if code c =? b'+'
    then digits 0 false s
    else digits 0 false (String.◌∷◌ c s)

-- `int(version)`
unfoldable pub to_int : Json → MigrationError ⊎ ℕ
unfolding strip_left strip_right
to_int (bool b) = inr (if b then 1 else 0)
to_int (num n) = inr n
to_int (minus n) = inr 0
to_int (str s) = maybe (signed (strip is_space s)) (inl MigrationError.bad_version) inr
to_int _ = inl MigrationError.bad_version

abbrev pub is_null : Json → Bool
is_null null = true
is_null _ = false

unfoldable pub detect_schema : Fields → MigrationError ⊎ ℕ
detect_schema raw =
    let sniffed = inr (if is_some (get "sites" raw) then 2 else 1) in
    maybe (get "schema_version" raw) sniffed (λ v. if is_null v then sniffed else to_int v)

-- `(raw.get(key) or {})`, of which the caller reads as a dictionary
unfoldable pub section : String → Fields → MigrationError ⊎ Fields
section key raw = maybe (get key raw) (inr no_fields) (λ v.
    if not (is_true v)
    then inr no_fields
    else elim v [ obj fs ↦ inr fs | _ ↦ inl MigrationError.wrong_type ])

-- `d.get(key, default)`
abbrev get_or : String → Json → Fields → Json
get_or key default fs = maybe (get key fs) default (λ v. v)

abbrev pub is_set : String → Fields → Bool
is_set key raw = maybe (get key raw) false is_true

abbrev pub take_over : String → Fields → Fields → Fields
take_over key raw site = maybe (get key raw) site (λ v. if is_true v then set key v site else site)

unfoldable pub slugify_site : String → String
slugify_site = slugify_or "site"

unfoldable pub legacy_site : String → Fields → Fields → Fields
legacy_site name discovery raw = take_over "proxmox" raw (
    take_over "technitium" raw (
      field "id" (str (slugify_site name)) (
        field "name" (str name) (
          field "netbox_site" (str (slugify_site name)) (
            field "netbox_site_name" (str name) (
              field "discovery"
                (obj (
                  field "enabled" (get_or "enabled" (bool true) discovery) (
                    field "include_prefixes" (get_or "include_prefixes" (arr no_items) discovery) (
                      field "exclude_prefixes" (get_or "exclude_prefixes" (arr no_items) discovery)
                        no_fields))))
                no_fields))))))

abbrev pub drop_if_set : String → Fields → Fields
drop_if_set key raw = if is_set key raw then remove key raw else raw

-- The scope keys, out of the global section. It is a dictionary, as `section` has found.
abbrev pub drop_scope : Json → Json
drop_scope (obj fs) = obj (remove "exclude_prefixes" (remove "include_prefixes" fs))
drop_scope v = v

unfoldable pub with_site : Fields → Fields → Fields
with_site site raw =
    set "sites" (arr (item (obj site) no_items))
      (change "discovery" drop_scope (drop_if_set "proxmox" (drop_if_set "technitium" raw)))

abbrev site_name : Json → MigrationError ⊎ String
site_name (str s) = inr s
site_name _ = inl MigrationError.wrong_type

unfoldable pub migrate_legacy : Fields → MigrationError ⊎ Fields
migrate_legacy raw =
    if is_some (get "sites" raw)
    then inr raw
    else if not (is_some (get "technitium" raw) || is_some (get "proxmox" raw))
    then inr (set "sites" (arr no_items) raw)
    else section "netbox" raw then λ netbox. section "discovery" raw then λ discovery.
        site_name (get_or "default_site" (str "Home") netbox) then λ name.
        inr (with_site (legacy_site name discovery raw) raw)

-- The `while` loop; the first number is the versions that are left to climb.
unfoldable pub upgrade : ℕ → ℕ → Fields → MigrationError ⊎ Fields
upgrade zero version raw = inr raw
upgrade (suc left) version raw =
    let next = λ (r : Fields). upgrade left (suc version) r in
    if version =? 1 then (migrate_legacy raw then next) else inl (MigrationError.no_step version)

unfoldable pub migrate_to_current : Fields → MigrationError ⊎ Fields
migrate_to_current raw = detect_schema raw then λ version.
    if ltb config_schema_version version
    then inl (MigrationError.too_new version)
    else if ltb version 1
    then inl MigrationError.bad_version
    else upgrade (config_schema_version - version) version raw then λ r.
        inr (set "schema_version" (num config_schema_version) r)
