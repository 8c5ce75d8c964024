-- ===== src/Config/Laws.antt =====
-- What a migration returns: the current version, and a configuration that it leaves as it is.
use netbox_monitor.Prelude.{
  ℕ, ◌-◌, ◌≡◌, sym, refl, ◌∙◌, ap, Bool, true, false, some, ◌⊎◌, inl, inr, either, arith, ltb,
  if◌then◌else◌,
}
use netbox_monitor.Json.{Fields, num, get, set, get-set, set-set}
use netbox_monitor.Config.{
  MigrationError, config_schema_version, ◌then◌, detect_schema, upgrade, migrate_to_current, to_int,
}

then-inr :
    {A B : Type 0} (m : MigrationError ⊎ A) (f : A → MigrationError ⊎ B) (b : B)
    → (m then f) ≡ inr b
    → (a : A) × (m ≡ inr a) × (f a ≡ inr b)
then-inr (inl e) f b h = absurd (ground (arith, h))
then-inr (inr a) f b h = (a, refl, h)

guard-inr :
    {A : Type 0} (b : Bool) (e : MigrationError) (m : MigrationError ⊎ A) (a : A)
    → (if b then inl e else m) ≡ inr a
    → (b ≡ false) × (m ≡ inr a)
guard-inr true e m a h = absurd (ground (arith, h))
guard-inr false e m a h = (refl, h)

inr-injective : {A : Type 0} (a b : A) → Path (MigrationError ⊎ A) (inr a) (inr b) → a ≡ b
inr-injective a b h = ap (λ m. either m (λ _. a) (λ x. x)) h

-- What a migration that returned went through.
pub record Migrated (raw d : Fields) : Type 0 where
  pub version : ℕ
  pub detected : detect_schema raw ≡ inr version
  pub supported : ltb config_schema_version version ≡ false
  pub upgraded : Fields
  pub climbed : upgrade (config_schema_version - version) version raw ≡ inr upgraded
  pub result : d ≡ set "schema_version" (num config_schema_version) upgraded

pub migrated : (raw d : Fields) → migrate_to_current raw ≡ inr d → Migrated raw d
unfolding migrate_to_current
migrated raw d h =
    let (version, found, h1) = then-inr (detect_schema raw) _ d h in
    let (supported, h2) = guard-inr (ltb config_schema_version version) _ _ d h1 in
    let (real, h3) = guard-inr (ltb version 1) _ _ d h2 in
    let (r, climbed, h4) =
      then-inr (upgrade (config_schema_version - version) version raw) _ d h3 in
    record {
      version = version;
      detected = found;
      supported = supported;
      upgraded = r;
      climbed = climbed;
      result = sym (inr-injective _ _ h4);
    }

pub get-version :
    (r : Fields)
    → get "schema_version" (set "schema_version" (num config_schema_version) r)
      ≡ some (num config_schema_version)
get-version r = get-set "schema_version" "schema_version" (num config_schema_version) r

-- A migrated configuration says that it is of the current version.
pub migrate_to_current-version :
    (raw d : Fields)
    → migrate_to_current raw ≡ inr d
    → get "schema_version" d ≡ some (num config_schema_version)
migrate_to_current-version raw d h =
    let m = migrated raw d h in ap (get "schema_version") m.result ∙ get-version m.upgraded

pub settled :
    (r : Fields)
    → migrate_to_current (set "schema_version" (num config_schema_version) r)
      ≡ inr (set "schema_version" (num config_schema_version) r)
unfolding migrate_to_current detect_schema to_int upgrade
settled r = rw (get-version r) (ap inr (set-set "schema_version" (num config_schema_version) r))

-- Migrating a migrated configuration changes nothing.
pub migrate_to_current-settles :
    (raw d : Fields) → migrate_to_current raw ≡ inr d → migrate_to_current d ≡ inr d
migrate_to_current-settles raw d h = let m = migrated raw d h in rw m.result (settled m.upgraded)
