-- ===== src/Wire/Lldp.antt =====
-- LLDP neighbours and credential profiles (lldp/__init__.py, config.py).
use netbox_monitor.Prelude.{String, Bool, List, Option}

-- `LldpNeighbor`
pub record Neighbor : Type 0 where
  pub local_port : String
  pub chassis_mac : Option String
  pub sysname : Option String
  pub remote_port : Option String
  pub remote_port_is_mac : Bool
  pub mgmt_ip : Option String
  pub capabilities : List String
  pub sys_descr : Option String

-- `LldpCredential`
pub record Credential : Type 0 where
  pub name : String
  pub driver : String
  pub username : String
  pub password : String
  pub snmp_community : String

-- `DeviceSecrets` of clients/secrets.py
pub record DeviceSecrets : Type 0 where
  pub ssh_username : Option String
  pub ssh_password : Option String
  pub snmp_community : Option String
