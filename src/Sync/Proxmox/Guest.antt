-- ===== src/Sync/Proxmox/Guest.antt =====
-- sync/proxmox.py: one guest. The unit of the disk is read from NetBox's version for each guest; the source
-- keeps what it read first.
use netbox_monitor.Prelude.{
  ℕ, ◌/◌, String, Bool, true, false, not, ◌&&◌, ◌||◌, Option, none, some, List, [], ◌∷◌, ◌++◌,
  insert, map, is_nil, is_some, mem, maybe, leb, ltb, ◌=?◌, ◌^◌, ◌<>◌, ◌==◌, if◌then◌else◌, truthy,
  truthy_num, before, split, decimal,
}
use netbox_monitor.Wire.Object.{Endpoint, Obj, Payload, text, num, nums, fields}
use netbox_monitor.Wire.Proxmox.{Kind, qemu, lxc, Guest, GuestConfig}
use netbox_monitor.Wire.Request.{Request, Exn, ExnClass}
use netbox_monitor.Effects.{Prog, pure, raise, ask, try_catch, ◌>>=◌, ◌>>◌, for_each}
use netbox_monitor.Net.Ipv4.{parse_address}
use netbox_monitor.Netbox
use netbox_monitor.Netbox.{
  Client, managed_tag_slug, stale_tag_slug, tag_ids, obj_tag_slugs, is_managed, ensure, remove_tags,
}
use netbox_monitor.Sync.Common.Lookup.{vm_interface_type}
use netbox_monitor.Sync.Common.Host.{or_null, obj_id, set_interface_mac}
use netbox_monitor.Sync.Common.Upsert.{has_id, upsert_ip}

-- What the module reads of `ctx`.
pub record Setup : Type 0 where
  pub netbox : Client
  pub show_num : ℕ → String
  pub dump : ℕ → Bool → String → ℕ → String

abbrev pub proxmox_source : String
proxmox_source = "src-proxmox"

-- `STATUS_MAP.get(guest.get("status", ""), "offline")`
abbrev pub netbox_status : Option String → String
netbox_status none = "offline"
netbox_status (some s) =
    if s == "running" then "active" else if s == "paused" then "paused" else "offline"

abbrev pub kind_text : Kind → String
kind_text qemu = "qemu"
kind_text lxc = "lxc"

abbrev version_parts : List String → Option (ℕ × ℕ)
version_parts (a ∷ b ∷ rest) =
    maybe (decimal a) none (λ major. maybe (decimal b) none (λ minor. some (major, minor)))
version_parts _ = none

-- `(major, minor) >= (4, 1)`, which is taken to hold where the version is no pair of numbers
abbrev pub is_mb_version : String → Bool
is_mb_version raw =
    maybe (version_parts (split b'.' raw)) true
      (λ (major, minor). ltb 4 major || (major =? 4 && leb 1 minor))

unfoldable pub disk_unit_mb : Prog Bool
disk_unit_mb =
    try_catch (do raw ← ask Request.netbox_version; pure (is_mb_version raw)) (λ _. pure true)

-- What NetBox is to have of a guest.
pub record Wanted : Type 0 where
  pub status : String
  pub vcpus : Option ℕ
  pub memory : Option ℕ
  pub disk : Option ℕ
  pub device : Option ℕ

abbrev pub or_else : Option ℕ → Option ℕ → Option ℕ
or_else (some n) other = some n
or_else none other = other

abbrev pub wanted : Bool → Option Obj → Guest → Wanted
wanted in_mb node_device g = record {
  status = netbox_status g.status;
  vcpus = or_else (truthy_num g.maxcpu) (truthy_num g.cpus);
  memory = truthy_num (some (g.maxmem / 1048576));
  disk = truthy_num (some (if in_mb then g.maxdisk / 1048576 else g.maxdisk / 1073741824));
  device = obj_id node_device;
}

abbrev pub payload_of : Wanted → Payload
payload_of w =
    ("status", text w.status)
    ∷ ("vcpus", or_null w.vcpus)
    ∷ ("memory", or_null w.memory)
    ∷ ("disk", or_null w.disk)
    ∷ ("device", or_null w.device)
    ∷ []

-- a field whose value is known and differs
abbrev pub differing : String → Option ℕ → Option ℕ → Payload
differing name none current = []
differing name (some n) current = if has_id current n then [] else (name, num n) ∷ []

unfoldable pub vm_updates : Wanted → Obj → Payload
vm_updates w vm =
    (if vm.status == w.status then [] else ("status", text w.status) ∷ [])
    ++ (differing "vcpus" w.vcpus vm.vcpus
        ++ (differing "memory" w.memory vm.memory
            ++ (differing "disk" w.disk vm.disk ++ differing "device" w.device vm.device)))

-- not on the loopback network, nor on that of link-local addresses
abbrev pub is_routable : ℕ → Bool
is_routable n = not (n / 2 ^ 24 =? 127) && not (n / 2 ^ 16 =? 43518)

-- The addresses of the agent that count. Those of version 6 are dropped later in the source.
unfoldable pub agent_ips : List String → List String
agent_ips [] = []
agent_ips (ip ∷ ips) =
    let rest = agent_ips ips in
    maybe (parse_address ip) rest (λ n. if is_routable n then ip ∷ rest else rest)

abbrev value_error : Exn
value_error = record { class = ExnClass.value_error; type_name = "ValueError"; text = "" }

abbrev pub first_of : List Obj → Option Obj
first_of [] = none
first_of (o ∷ os) = some o

module _ (ctx : Setup) where
  abbrev pub guest_name : Kind → Guest → String
  guest_name kind g =
      maybe (truthy g.name) (kind_text kind <> "-" <> ctx.show_num g.vmid) (λ name. name)

  -- `guest.get("name", str(guest["vmid"]))`, which goes into `seen_vm_names`
  abbrev pub guest_key : Guest → String
  guest_key g = maybe g.name (ctx.show_num g.vmid) (λ name. name)

  unfoldable pub create_vm : Obj → String → Kind → String → Guest → Wanted → Prog (Option Obj)
  create_vm cluster name kind node g w = do
    tags ← tag_ids ctx.netbox (managed_tag_slug ∷ proxmox_source ∷ [])
    now ← ask Request.now_iso
    Netbox.create ctx.netbox Endpoint.virtual_machines (
        ("name", text name)
        ∷ ("cluster", num cluster.id)
        ∷ ("tags", nums tags)
        ∷ (
          "comments",
          text ("Proxmox " <> kind_text kind <> " vmid " <> ctx.show_num g.vmid <> " on " <> node),
        )
        ∷ ("custom_fields", fields (("last_seen", now) ∷ []))
        ∷ payload_of w)

  unfoldable pub change_vm : Wanted → Obj → Prog Obj
  change_vm w vm =
      if is_nil (vm_updates w vm) || not (is_managed vm (some proxmox_source)) then pure vm else do
        now ← ask Request.now_iso
        (changed, o) ← Netbox.update ctx.netbox vm (
            vm_updates w vm
            ++ (("custom_fields", fields (insert "last_seen" now vm.custom_fields)) ∷ []))
        pure o

  unfoldable pub update_vm : Wanted → Obj → Prog Obj
  update_vm w vm = do
    v ← change_vm w vm
    if is_managed v (some proxmox_source) && mem stale_tag_slug (obj_tag_slugs v)
        then (do (changed, o) ← remove_tags ctx.netbox v (stale_tag_slug ∷ []); pure o)
        else pure v

  -- an interface of the guest, with its MAC address
  unfoldable pub sync_interface : Obj → String × String → List Obj → Prog (List Obj)
  sync_interface vm (net_name, mac) ifaces = do
    tags ← tag_ids ctx.netbox (managed_tag_slug ∷ proxmox_source ∷ [])
    iface ←
        ensure ctx.netbox Endpoint.vm_interfaces
          (("virtual_machine_id", num vm.id) ∷ ("name", text net_name) ∷ [])
          (("virtual_machine", num vm.id) ∷ ("tags", nums tags) ∷ [])
    maybe iface (pure ifaces)
        (λ i. do set_interface_mac ctx.netbox i mac vm_interface_type; pure (ifaces ++ (i ∷ [])))

  unfoldable pub guest_ips : String → String → Kind → Guest → GuestConfig → Prog (List String)
  guest_ips host node qemu g config =
      if maybe g.status false (λ s. s == "running")
      then (do found ← ask (Request.pve_agent host node g.vmid); pure (agent_ips found))
      else pure []
  guest_ips host node lxc g config = pure (map (λ cidr. before b'/' cidr) config.lxc_ips)

  -- Whether the primary IP is set is what the loop passes on.
  unfoldable pub sync_ip : String → Obj → Option Obj → String → Bool → Prog Bool
  sync_ip name vm iface ip primary_set = maybe (parse_address ip) (raise value_error) (λ _. do
    found ← upsert_ip ctx.netbox (record {
      ip = ip;
      source_slug = proxmox_source;
      status = "active";
      dns_name = "";
      description = "Proxmox guest " <> name;
      mac = none;
      vendor = none;
      assigned_object_type = maybe iface none (λ i. some vm_interface_type);
      assigned_object_id = obj_id iface;
    })
    maybe found (pure primary_set) (λ o. maybe iface (pure primary_set) (λ i.
        if not primary_set && has_id o.assigned_object_id i.id
        then (do Netbox.update ctx.netbox vm (("primary_ip4", num o.id) ∷ []); pure true)
        else pure primary_set)))

  unfoldable pub sync_network : String → String → Kind → Guest → Obj → GuestConfig → Prog (Unit {0})
  sync_network host node kind g vm config = do
    ifaces ← for_each config.macs [] (λ entry found. sync_interface vm entry found)
    ips ← guest_ips host node kind g config
    for_each ips (is_some vm.primary_ip4)
        (λ ip set. sync_ip (guest_name kind g) vm (first_of ifaces) ip set)
    pure tt

  unfoldable pub read_config : String → String → Kind → Guest → Prog (Option GuestConfig)
  read_config host node kind g =
      try_catch (do config ← ask (Request.pve_config host node kind g.vmid); pure (some config))
        (λ _. pure none)

  -- interfaces and IPs, of a virtual machine that the module owns only
  unfoldable pub attach_network : String → String → Kind → Guest → Obj → Prog (Unit {0})
  attach_network host node kind g vm =
      if not (is_managed vm (some proxmox_source)) then pure tt else do
        config ← read_config host node kind g
        maybe config (pure tt) (λ c. sync_network host node kind g vm c)

  -- what follows the lookup of the virtual machine
  unfoldable pub settle_guest :
      String → Obj → String → Kind → Guest → Wanted → Option Obj → Prog (Unit {0})
  settle_guest host cluster node kind g w found = do
    vm ←
        maybe found (create_vm cluster (guest_name kind g) kind node g w)
          (λ v. do o ← update_vm w v; pure (some o))
    maybe vm (pure tt) (λ v. attach_network host node kind g v)

  unfoldable pub sync_guest : String → Obj → Option Obj → String → Kind → Guest → Prog (Unit {0})
  sync_guest host cluster node_device node kind g = do
    in_mb ← disk_unit_mb
    let w = wanted in_mb node_device g
    let name = guest_name kind g
    found ← ask (
        Request.get Endpoint.virtual_machines
          (("name", text name) ∷ ("cluster_id", num cluster.id) ∷ []))
    settle_guest host cluster node kind g w found
