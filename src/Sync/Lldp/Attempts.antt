-- ===== src/Sync/Lldp/Attempts.antt =====
-- sync/lldp.py: `_credential_profiles`, `_build_attempts` and the cache of working credentials.
pub mod Bounds
use netbox_monitor.Prelude.{
  String, Bool, true, false, not, ◌&&◌, ◌||◌, Option, none, some, List, [], ◌∷◌, ◌++◌,
  if◌then◌else◌, maybe, any, find, mem, is_some, non_empty, is_nil, truthy, ◌==◌, ◌<>◌,
}
use mathlib.Core.List.{foldl}
use netbox_monitor.Wire.Object.{Obj}
use netbox_monitor.Wire.Lldp.{Credential, DeviceSecrets}
use netbox_monitor.Wire.Request.{Request, Exn, ExnClass}
use netbox_monitor.Effects.{Prog, pure, raise, try_catch, ask, ◌>>=◌, ◌>>◌}
use netbox_monitor.Lldp.Registry.{ssh_drivers, all_drivers, auto_order, value_error}
use netbox_monitor.Sync.Lldp.Types.{Context, Site, CrawlTarget}

unfoldable pub credential_profiles : Context → Site → List Credential
credential_profiles ctx site =
    (if non_empty site.ssh_username || non_empty site.snmp_community
      then record {
        name = site.id <> "-site";
        driver = "auto";
        username = site.ssh_username;
        password = site.ssh_password;
        snmp_community = site.snmp_community;
      }
        ∷ []
      else [])
    ++ ctx.credentials

-- (driver, the secret values)
pub record Key : Type 0 where
  pub driver : String
  pub username : String
  pub password : String
  pub snmp_community : String

abbrev pub same_key : Key → Key → Bool
same_key a b =
    a.driver == b.driver
    && a.username == b.username
    && a.password == b.password
    && a.snmp_community == b.snmp_community

abbrev pub has_key : Key → List Key → Bool
has_key k ks = any (same_key k) ks

pub record Attempt : Type 0 where
  pub driver : String
  pub cred : Option Credential

abbrev pub username_of : Option Credential → String
username_of cred = maybe cred "" (λ c. c.username)

abbrev pub password_of : Option Credential → String
password_of cred = maybe cred "" (λ c. c.password)

abbrev pub community_of : Option Credential → String
community_of cred = maybe cred "" (λ c. c.snmp_community)

abbrev pub key_of : Attempt → Key
key_of a = record {
  driver = a.driver;
  username = username_of a.cred;
  password = password_of a.cred;
  snmp_community = community_of a.cred;
}

-- The local variables `attempts` and `seen`.
pub record Plan : Type 0 where
  pub attempts : List Attempt
  pub seen : List Key

-- `add(driver, cred)`
unfoldable pub add : Plan → Attempt → Plan
add plan a =
    if mem a.driver all_drivers && not (has_key (key_of a) plan.seen)
    then record { attempts = plan.attempts ++ a ∷ []; seen = key_of a ∷ plan.seen }
    else plan

abbrev ssh_part : Credential → List String → List String
ssh_part cred [] = []
ssh_part cred (d ∷ ds) =
    let rest = ssh_part cred ds in
    if mem d ssh_drivers && non_empty cred.username then d ∷ rest else rest

-- `drivers_for(cred)`, which is called with a credential only
unfoldable pub drivers_for : Option String → Credential → List String
drivers_for hint cred =
    if not (cred.driver == "auto")
    then cred.driver ∷ []
    else ssh_part cred (maybe (truthy hint) auto_order (λ d. d ∷ []))
      ++ (if non_empty cred.snmp_community then "snmp" ∷ [] else [])

abbrev add_all : Credential → Plan → List String → Plan
add_all cred plan [] = plan
add_all cred plan (d ∷ ds) = add_all cred (add plan (record { driver = d; cred = some cred })) ds

abbrev add_profiles : Option String → Plan → List Credential → Plan
add_profiles hint plan [] = plan
add_profiles hint plan (p ∷ ps) = add_profiles hint (add_all p plan (drivers_for hint p)) ps

-- The order of `_build_attempts`: the cached combination, netbox-secrets, the profiles.
unfoldable pub plan_attempts :
    Option String → Option (String × String) → Option Credential → List Credential → Plan
unfolding add drivers_for
plan_attempts hint cached secret_cred profiles =
    let start : Plan = record { attempts = []; seen = [] } in
    let with_cached = maybe cached start (λ (driver, name). add start (record {
      driver = driver;
      cred = maybe (find (λ p. p.name == name) profiles) secret_cred some;
    })) in
    let with_secret =
      maybe secret_cred with_cached (λ s. add_all s with_cached (drivers_for hint s)) in
    add_profiles hint with_secret profiles

abbrev cred_key : String → String
cred_key host = "lldpcred:" <> host

-- A cached text that does not parse raises, outside the `try`.
unfoldable pub cached_working : Context → String → Prog (Option (String × String))
cached_working ctx host = do
  raw ← try_catch (ask (Request.select_kv (cred_key host))) (λ _. pure none)
  maybe (truthy raw) (pure none)
      (λ text. maybe (ctx.load_cred text) (raise (value_error text)) (λ entry. pure (some entry)))

unfoldable pub cache_working : Context → String → String → Option Credential → Prog (Unit {0})
cache_working ctx host driver cred =
    try_catch
      (ask (Request.upsert_kv (cred_key host) (ctx.dump_cred driver (maybe cred "" (λ c. c.name)))))
      (λ _. pure tt)

abbrev secret_credential : DeviceSecrets → Option Credential
secret_credential s =
    if is_some (truthy s.ssh_username) || is_some (truthy s.snmp_community)
    then some (record {
      name = "netbox-secrets";
      driver = "auto";
      username = maybe s.ssh_username "" (λ t. t);
      password = maybe s.ssh_password "" (λ t. t);
      snmp_community = maybe s.snmp_community "" (λ t. t);
    })
    else none

unfoldable pub secrets_cred : Context → Option Obj → Prog (Option Credential)
secrets_cred ctx device =
    if not ctx.has_secrets
    then pure none
    else maybe device (pure none) (λ d.
      try_catch (do s ← ask (Request.device_secrets d.id); pure (secret_credential s))
        (λ _. pure none))

unfoldable pub build_attempts : Context → CrawlTarget → List Credential → Prog (List Attempt)
build_attempts ctx target profiles = do
  cached ← cached_working ctx target.host
  secret ← secrets_cred ctx target.device
  pure (plan_attempts target.hint_driver cached secret profiles).attempts
