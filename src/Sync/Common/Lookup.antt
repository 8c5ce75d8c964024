-- ===== src/Sync/Common/Lookup.antt =====
-- sync/common.py: finding IP addresses, prefix lengths and interfaces in NetBox.
use netbox_monitor.Prelude.{
  ℕ, String, Bool, true, ◌&&◌, ◌||◌, Option, none, some, List, [], ◌∷◌, Dict, lookup, insert, ltb,
  leb, ◌=?◌, if◌then◌else◌, maybe, head?, is_some, split, decimal, truthy_num,
}
use netbox_monitor.Wire.Object.{Endpoint, Obj, text, num}
use netbox_monitor.Wire.Request.{Request}
use netbox_monitor.Effects.{Prog, pure, try_catch, ask, ◌>>=◌}

-- `max(... prefixlen for p in prefixes)`, which raises where a prefix does not parse
abbrev longest : List Obj → Option ℕ
longest [] = some 0
longest (p ∷ ps) =
    maybe p.prefix_len none (λ n. maybe (longest ps) none (λ m. some (if ltb m n then n else m)))

unfoldable pub prefix_len_for_ip : String → Prog ℕ
prefix_len_for_ip ip =
    try_catch
      (do
        prefixes ← ask (Request.filter Endpoint.prefixes (("contains", text ip) ∷ []))
        pure (maybe (head? prefixes) 32 (λ _. maybe (longest prefixes) 32 (λ n. n))))
      (λ _. pure 32)

unfoldable pub find_ip : String → Prog (Option Obj)
find_ip ip = do
  matches ← ask (Request.filter Endpoint.ip_addresses (("address", text ip) ∷ []))
  pure (head? matches)

-- `_netbox_version(nb) >= (4, 2)`; a version that cannot be read counts as 4.2.
abbrev parsed_version : List String → Option (ℕ × ℕ)
parsed_version (major ∷ minor ∷ _) =
    maybe (decimal major) none (λ a. maybe (decimal minor) none (λ b. some (a, b)))
parsed_version _ = none

abbrev at_least_4_2 : Option (ℕ × ℕ) → Bool
at_least_4_2 none = true
at_least_4_2 (some (major, minor)) = ltb 4 major || major =? 4 && leb 2 minor

unfoldable pub has_mac_objects : Prog Bool
has_mac_objects =
    try_catch
      (do raw ← ask Request.netbox_version; pure (at_least_4_2 (parsed_version (split b'.' raw))))
      (λ _. pure true)

-- The first assigned object of each type, by type.
unfoldable pub mac_candidates : List Obj → Dict ℕ → Dict ℕ
mac_candidates [] found = found
mac_candidates (m ∷ ms) found = mac_candidates ms (
    maybe m.assigned_object_type found (λ type.
      maybe (truthy_num m.assigned_object_id) found
        (λ i. if is_some (lookup type found) then found else insert type i found)))

abbrev pub vm_interface_type : String
vm_interface_type = "virtualization.vminterface"

abbrev pub interface_type : String
interface_type = "dcim.interface"

-- (assigned_object_type, interface, the parent's id)
pub record Match : Type 0 where
  pub type : String
  pub iface : Obj
  pub parent : Option ℕ

abbrev pub vm_match : Obj → Match
vm_match iface = record { type = vm_interface_type; iface = iface; parent = iface.virtual_machine }

abbrev pub device_match : Obj → Match
device_match iface = record { type = interface_type; iface = iface; parent = iface.device }

abbrev pub get_by_id : Endpoint → ℕ → Prog (Option Obj)
get_by_id endpoint i = ask (Request.get endpoint (("id", num i) ∷ []))

-- One round of the loop over the two interface types: the candidate's interface, if it exists,
-- and the next round otherwise.
abbrev candidate :
    Dict ℕ → String → Endpoint → (Obj → Match) → Prog (Option Match) → Prog (Option Match)
candidate found type endpoint as_match next =
    maybe (lookup type found) next
      (λ i. do iface ← get_by_id endpoint i; maybe iface next (λ o. pure (some (as_match o))))

abbrev by_filter : Endpoint → (Obj → Match) → String → Prog (Option Match) → Prog (Option Match)
by_filter endpoint as_match mac next = do
  ifaces ← ask (Request.filter endpoint (("mac_address", text mac) ∷ []))
  maybe (head? ifaces) next (λ o. pure (some (as_match o)))

unfoldable pub find_interface_by_mac : String → Prog (Option Match)
find_interface_by_mac mac =
    try_catch
      (do
        mac_objects ← has_mac_objects
        if mac_objects
            then (do
              macs ← ask (Request.filter Endpoint.mac_addresses (("mac_address", text mac) ∷ []))
              let found = mac_candidates macs []
              candidate found vm_interface_type Endpoint.vm_interfaces vm_match
                  (candidate found interface_type Endpoint.interfaces device_match (pure none)))
            else by_filter Endpoint.vm_interfaces vm_match mac
                (by_filter Endpoint.interfaces device_match mac (pure none)))
      (λ _. pure none)
