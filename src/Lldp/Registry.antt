-- ===== src/Lldp/Registry.antt =====
-- lldp/registry.py: the choice of a driver, and the calls of the drivers, which are requests.
use netbox_monitor.Prelude.{
  String, ◌||◌, Option, none, some, List, [], ◌∷◌, ◌++◌, Dict, if◌then◌else◌, maybe, any, mem,
  is_empty, ◌==◌, ◌<>◌,
}
use netbox_monitor.Netbox.Slug.{lower}
use netbox_monitor.Wire.Lldp.{Neighbor}
use netbox_monitor.Wire.Request.{Request, Exn, ExnClass}
use netbox_monitor.Effects.{Prog, pure, raise, try_catch, ask}
use netbox_monitor.Lldp.Pattern.{has_part, has_hp_word, has_nxos}

abbrev pub ssh_drivers : List String
ssh_drivers = "cisco" ∷ "arista" ∷ "aruba" ∷ "mikrotik" ∷ "unifi" ∷ []

abbrev pub all_drivers : List String
all_drivers = ssh_drivers ++ "snmp" ∷ []

abbrev pub auto_order : List String
auto_order = "mikrotik" ∷ "cisco" ∷ "arista" ∷ "aruba" ∷ "unifi" ∷ "snmp" ∷ []

-- The loop over `_VENDOR_DRIVER`, on a text in lower case.
unfoldable pub vendor_driver : String → Option String
unfolding has_part has_hp_word has_nxos
vendor_driver text =
    if any (has_part text) ("mikrotik" ∷ "routeros" ∷ [])
    then some "mikrotik"
    else if has_part text "arista"
    then some "arista"
    else if any (has_part text) ("aruba" ∷ "procurve" ∷ "hewlett" ∷ []) || has_hp_word text
    then some "aruba"
    else if any (has_part text) ("cisco" ∷ "ios" ∷ []) || has_nxos text
    then some "cisco"
    else if any (has_part text) ("ubiquiti" ∷ "unifi" ∷ "edgeswitch" ∷ "edgerouter" ∷ [])
    then some "unifi"
    else none

unfoldable pub select_driver : Option String → Option String → Option String
unfolding vendor_driver lower
select_driver platform_slug sys_descr =
    vendor_driver (lower (maybe platform_slug "" (λ s. s) <> " " <> maybe sys_descr "" (λ s. s)))

abbrev pub value_error : String → Exn
value_error text = record { class = ExnClass.value_error; type_name = "ValueError"; text = text }

unfoldable pub collect : String → String → String → String → String → Prog (List Neighbor)
collect driver host username password snmp_community =
    if mem driver ssh_drivers
    then (if is_empty username || is_empty password
        then raise (value_error ("driver '" <> driver <> "' needs an SSH username/password"))
        else ask (Request.collect driver host username password ""))
    else if driver == "snmp"
    then (if is_empty snmp_community
        then raise (value_error "driver 'snmp' needs a community string")
        else ask (Request.collect driver host "" "" snmp_community))
    else raise (value_error ("unknown LLDP driver '" <> driver <> "'"))

-- Every SSH driver has the function that the source looks up; any failure answers with no MACs.
unfoldable pub collect_local_macs :
    String → String → String → String → String → Prog (Dict (Option String))
collect_local_macs driver host username password snmp_community =
    if mem driver ssh_drivers
    then try_catch (ask (Request.collect_macs driver host username password "")) (λ _. pure [])
    else if driver == "snmp"
    then try_catch (ask (Request.collect_macs driver host "" "" snmp_community)) (λ _. pure [])
    else pure []
