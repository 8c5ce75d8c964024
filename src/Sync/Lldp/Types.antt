-- ===== src/Sync/Lldp/Types.antt =====
-- sync/lldp.py: the data of the crawl, and what it reads of the configuration and the context.
use netbox_monitor.Prelude.{
  Dict, ℕ, String, Bool, true, false, not, Option, List, [], ◌∷◌, any, mem, contains_text,
}
use netbox_monitor.Netbox.Slug.{lower}
use netbox_monitor.Wire.Object.{Obj}
use netbox_monitor.Wire.Lldp.{Credential}
use netbox_monitor.Wire.Request.{Exn, ExnClass}
use netbox_monitor.Netbox.{Client}

-- What the crawl reads of `ctx`: the client, the global LLDP settings and the OUI table.
-- `dump_cred` and `load_cred` stand for the JSON text of the credential cache.
pub record Context : Type 0 where
  pub netbox : Client
  pub vendors : Dict String  -- the OUI table
  pub dump_cred : String → String → String
  pub load_cred : String → Option (String × String)
  pub source_tag : String
  pub max_switches : ℕ
  pub max_depth : ℕ
  pub max_auth_attempts : ℕ
  pub crawl_enabled : Bool
  pub credentials : List Credential
  pub exclude_hosts : List String
  pub has_secrets : Bool  -- the netbox-secrets client exists

-- `ResolvedSite`, as far as the crawl reads it.
pub record Site : Type 0 where
  pub id : String
  pub netbox_site_id : Option ℕ
  pub ssh_username : String
  pub ssh_password : String
  pub snmp_community : String

pub record CrawlTarget : Type 0 where
  pub host : String
  pub device : Option Obj
  pub hint_driver : Option String
  pub depth : ℕ
  pub sys_descr : Option String
  pub chassis_mac : Option String

pub record SiteStats : Type 0 where
  pub polled : ℕ
  pub created : ℕ
  pub failed : ℕ
  pub failures : List String

-- `_CONN_ERR_SIGNS`
abbrev conn_err_signs : List String
conn_err_signs =
    "reset" ∷ "refused" ∷ "timed out" ∷ "timeout" ∷ "unreachable" ∷ "connection lost"
    ∷ "not a valid" ∷ "closed" ∷ "no route" ∷ []

abbrev says_connection_error : String → Bool
says_connection_error text = any (contains_text (lower text)) conn_err_signs

unfoldable pub is_connection_error : Exn → Bool
is_connection_error e = elim e.class [
  | ExnClass.permission_denied ↦ false
  | ExnClass.os_error ↦ true
  | _ ↦ says_connection_error e.text
]

-- `_is_identity_mac`, for a MAC that is not `None`
unfoldable pub is_identity_mac : String → Bool
is_identity_mac mac = not (mem mac ("" ∷ "00:00:00:00:00:00" ∷ "FF:FF:FF:FF:FF:FF" ∷ []))
