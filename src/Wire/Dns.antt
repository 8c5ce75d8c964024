-- ===== src/Wire/Dns.antt =====
-- What the Technitium client hands over of DNS: the JSON objects of clients/technitium.py, with the keys
-- that the client and sync/dns.py read. A missing key is nothing.
use netbox_monitor.Prelude.{ℕ, String, Bool, Option, List}

pub record Zone : Type 0 where
  pub name : String  -- empty where the key is missing
  pub type : Option String
  pub disabled : Bool

-- The answer to `/api/zones/list`.
pub record ZonePage : Type 0 where
  pub zones : List Zone
  pub total_pages : Option ℕ

pub record ZoneRecord : Type 0 where
  pub name : Option String
  pub type : Option String
  pub ip_address : Option String
  pub ptr_name : Option String
