-- ===== src/Wire/Object.antt =====
-- NetBox objects as the client library hands them over (clients/netbox.py, sync/*.py).
-- An attribute that the source reads with `getattr(obj, name, None)` is an `Option`.
use netbox_monitor.Prelude.{ℕ, String, Bool, List, Option, none, some, Dict}

-- The endpoints of `nb.api` that the source names.
pub data Endpoint : Type 0 where
  devices device_types device_roles manufacturers interfaces mac_addresses cables sites : Endpoint
  virtual_machines vm_interfaces clusters cluster_types : Endpoint
  ip_addresses prefixes tags custom_fields journal_entries : Endpoint

pub record Tag : Type 0 where
  pub id : ℕ
  pub slug : String

-- A nested IP record: `device.primary_ip4`.
pub record IpRef : Type 0 where
  pub id : ℕ
  pub address : String

-- A nested site: `device.site`.
pub record SiteRef : Type 0 where
  pub id : ℕ
  pub slug : String

-- `device.primary_ip4 or device.primary_ip`
abbrev pub first_ip : Option IpRef → Option IpRef → Option IpRef
first_ip (some ip) other = some ip
first_ip none other = other

pub record Obj : Type 0 where
  pub id : ℕ
  pub kind : Endpoint
  pub name : String
  pub tags : List Tag
  pub address : String
  pub dns_name : String
  pub description : String
  pub status : String  -- `obj.status.value`
  pub status_label : String  -- `str(obj.status)`
  pub custom_fields : Dict String
  pub assigned_object_type : Option String
  pub assigned_object_id : Option ℕ
  pub assigned_device : Option ℕ  -- `assigned_object.device.id`
  pub assigned_vm : Option ℕ  -- `assigned_object.virtual_machine.id`
  pub primary_ip : Option IpRef
  pub primary_ip4 : Option IpRef
  pub primary_ip6 : Option IpRef
  pub site : Option SiteRef
  pub device_site : Option SiteRef  -- `obj.device.site`
  pub device : Option ℕ
  pub virtual_machine : Option ℕ
  pub platform : String  -- the slug of `obj.platform`, or ""
  pub cable : Option ℕ
  pub mac_address : Option String
  pub primary_mac_address : Option ℕ
  pub prefix : String  -- of a prefix object
  pub prefix_len : Option ℕ  -- `ip_network(obj.prefix).prefixlen`, or nothing where that raises
  pub cluster : Option ℕ
  pub vcpus : Option ℕ  -- of a virtual machine, as the next two
  pub memory : Option ℕ
  pub disk : Option ℕ
  pub created : Bool  -- `_created`, which the LLDP crawl sets on what it has just created

-- The values of a payload.
pub data Value : Type 0 where
  null : Value
  text : String → Value
  num : ℕ → Value
  nums : List ℕ → Value
  texts : List String → Value
  fields : Dict String → Value
  flag : Bool → Value
  cidr : String → ℕ → Value  -- an address and a prefix length, written `ip/len`
  termination : ℕ → Value  -- `[{"object_type": "dcim.interface", "object_id": n}]`

abbrev pub Payload : Type 0
Payload = Dict Value
