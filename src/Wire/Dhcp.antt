-- ===== src/Wire/Dhcp.antt =====
-- What the Technitium client hands over: the JSON objects of clients/technitium.py, with the keys
-- that sync/dhcp.py reads. A missing key is nothing.
use netbox_monitor.Prelude.{String, Bool, Option}

pub record Scope : Type 0 where
  pub name : Option String
  pub starting : Option String
  pub ending : Option String
  pub mask : Option String
  pub enabled : Bool  -- true where the key is missing

pub record Lease : Type 0 where
  pub address : Option String
  pub type : Option String
  pub hardware : Option String
  pub hostname : Option String
  pub scope : String  -- empty where the key is missing
