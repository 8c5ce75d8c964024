-- ===== src/Sync/Lldp/Merge.antt =====
-- sync/lldp.py: `_dedup_and_record_macs`, `_merge_duplicate` and `_record_local_macs`.
pub mod Ownership
use netbox_monitor.Prelude.{
  ℕ, String, Bool, true, false, not, ◌&&◌, ◌||◌, Option, none, some, List, [], ◌∷◌, map, Dict,
  lookup, insert, if◌then◌else◌, maybe, any, is_some, mem, take, truthy, truthy_num, ◌==◌, ◌=?◌,
  ◌<>◌,
}
use mathlib.Core.List.{foldl}
use netbox_monitor.Wire.Object.{Endpoint, Obj, IpRef, text, num, null}
use netbox_monitor.Wire.Request.{Request}
use netbox_monitor.Effects.{Prog, pure, try_catch, ask, ◌>>=◌, ◌>>◌, for_each}
use netbox_monitor.Netbox
use netbox_monitor.Netbox.{
  Client, managed_tag_slug, is_managed, obj_tag_slugs, journal, delete_if_managed,
}
use netbox_monitor.Sync.Common.Lookup.{find_interface_by_mac, get_by_id, interface_type}
use netbox_monitor.Sync.Common.Host.{set_interface_mac}
use netbox_monitor.Sync.Lldp.Types.{is_identity_mac}
use netbox_monitor.Sync.Lldp.Switch.{local_interface}

pub record Direction : Type 0 where
  pub keeper : Obj
  pub lose : Obj
  pub keeps_polled : Bool

abbrev pub keep_other : Obj → Obj → Direction
keep_other polled other = record { keeper = other; lose = polled; keeps_polled = false }

abbrev pub keep_polled : Obj → Obj → Direction
keep_polled polled other = record { keeper = polled; lose = other; keeps_polled = true }

-- Which of two devices that are one switch is kept. `none` where neither is managed.
unfoldable pub merge_direction : Obj → Obj → Option Direction
merge_direction polled other =
    let polled_managed = is_managed polled none in
    let other_managed = is_managed other none in
    if polled_managed && not other_managed
    then some (keep_other polled other)
    else if other_managed && not polled_managed
    then some (keep_polled polled other)
    else if polled_managed && other_managed
    then some (
        if mem "lldp-source" (obj_tag_slugs other)
        then keep_other polled other
        else keep_polled polled other)
    else none

abbrev ref_id : Option IpRef → Option ℕ
ref_id r = maybe r none (λ i. some i.id)

abbrev is_ref : Option ℕ → ℕ → Bool
is_ref r i = maybe r false (λ j. i =? j)

-- The interface name that an IP of the duplicate hangs on.
unfoldable pub interface_name : Obj → Prog String
interface_name ip = maybe (truthy_num ip.assigned_object_id) (pure "mgmt") (λ i. do
  iface ← get_by_id Endpoint.interfaces i
  pure (maybe (truthy (maybe iface none (λ f. some f.name))) "mgmt" (λ n. n)))

-- One round of the loop over the duplicate's IPs; the state is the keeper.
unfoldable pub move_ip : Client → Option ℕ → Obj → Obj → Prog Obj
move_ip c lose_primary ip keeper = do
  name ← interface_name ip
  dest ← local_interface c keeper name
  maybe dest (pure keeper) (λ d. do
    (_, moved) ←
        Netbox.update c ip
          (("assigned_object_type", text interface_type) ∷ ("assigned_object_id", num d.id) ∷ [])
    if is_ref lose_primary moved.id && not (is_some keeper.primary_ip4)
        then (do
          (_, linked) ← Netbox.update c keeper (("primary_ip4", num moved.id) ∷ [])
          pure linked)
        else pure keeper)

-- The merge proper, once the direction is chosen and every IP of the loser is managed. If the
-- deletion is refused, the polled device comes back.
unfoldable pub absorb : Client → Direction → List Obj → String → Prog Obj
absorb c d lose_ips mac = do
  let lose_primary = ref_id d.lose.primary_ip4
  (_, lose) ←
      (if is_some lose_primary || is_some d.lose.primary_ip6
        then Netbox.update c d.lose (("primary_ip4", null) ∷ ("primary_ip6", null) ∷ [])
        else pure (false, d.lose))
  keeper ← for_each lose_ips d.keeper (move_ip c lose_primary)
  journal c keeper
      ("Merged duplicate device '" <> lose.name <> "' (same chassis, MAC " <> mac <> ")") "info"
  done ← delete_if_managed c lose
  if not done then pure (if d.keeps_polled then keeper else lose) else do
    refreshed ← get_by_id Endpoint.devices keeper.id
    pure (maybe refreshed keeper (λ o. o))

unfoldable pub merge_duplicate : Client → Obj → Obj → String → Prog Obj
merge_duplicate c polled other mac = maybe (merge_direction polled other) (pure polled) (λ d. do
  lose_ips ← ask (Request.filter Endpoint.ip_addresses (("device_id", num d.lose.id) ∷ []))
  if any (λ ip. not (mem managed_tag_slug (obj_tag_slugs ip))) lose_ips
      then pure polled
      else absorb c d lose_ips mac)

abbrev set_default : String → Option String → Dict (Option String) → Dict (Option String)
set_default k v d = if is_some (lookup k d) then d else insert k v d

-- The MACs that identify the chassis: its LLDP id, and the first sixteen of its own.
unfoldable pub identity_of : Option String → Dict (Option String) → Dict (Option String)
identity_of chassis_mac local_macs =
    foldl (λ d (mac, ifname). if is_identity_mac mac then set_default mac ifname d else d)
      (maybe chassis_mac [] (λ mac. if is_identity_mac mac then (mac, none) ∷ [] else []))
      (take 16 local_macs)

-- Another device that carries the MAC.
unfoldable pub other_carrier : Obj → String → Prog (Option Obj)
other_carrier device mac = do
  found ← find_interface_by_mac mac
  maybe found (pure none) (λ m.
      if not (m.type == interface_type)
      then pure none
      else maybe m.parent (pure none) (λ other_id. if other_id =? device.id then pure none else do
        other ← get_by_id Endpoint.devices other_id
        pure (maybe other none (λ o. if o.id =? device.id then none else some o))))

-- The loop over the identity: the first MAC that another device carries leads to a merge, and ends
-- it. A merge that raises leaves the device as it was; of the local object only the primary IP
-- could have changed before, which nothing reads afterwards.
unfoldable pub dedup : Client → Obj → List String → Prog Obj
dedup c device [] = pure device
dedup c device (mac ∷ macs) = do
  other ← other_carrier device mac
  maybe other (dedup c device macs)
      (λ o. try_catch (merge_duplicate c device o mac) (λ _. pure device))

-- One round of `_record_local_macs`; the state is the management interface, once it is known.
unfoldable pub record_mac : Client → Obj → String × Option String → Option Obj → Prog (Option Obj)
record_mac c device (mac, ifname) mgmt = do
  named ← maybe (truthy ifname) (pure none) (λ name.
      ask
        (Request.get Endpoint.interfaces (("device_id", num device.id) ∷ ("name", text name) ∷ [])))
  mgmt' ←
      maybe named (maybe mgmt (local_interface c device "mgmt") (λ m. pure (some m)))
        (λ _. pure mgmt)
  maybe (maybe named mgmt' some) (pure tt) (λ iface. set_interface_mac c iface mac interface_type)
  pure mgmt'

unfoldable pub record_local_macs : Client → Obj → Dict (Option String) → Prog (Unit {0})
record_local_macs c device identity = do for_each identity none (record_mac c device); pure tt

unfoldable pub dedup_and_record_macs :
    Client → Obj → Option String → Dict (Option String) → Prog (Obj × List String)
dedup_and_record_macs c device chassis_mac local_macs = do
  let identity = identity_of chassis_mac local_macs
  let macs = map (λ (mac, _). mac) identity
  device' ← dedup c device macs
  record_local_macs c device' identity
  pure (device', macs)
