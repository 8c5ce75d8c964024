-- ===== src/Lldp.antt =====
-- lldp/__init__.py and lldp/registry.py: which neighbours are switches, and which driver to use.
pub mod Pattern
pub mod Registry
use netbox_monitor.Prelude.{
  String, Bool, true, false, not, ◌&&◌, ◌||◌, Option, none, some, List, [], ◌∷◌, if◌then◌else◌,
  maybe, any, mem, is_some, truthy, non_empty, ◌<>◌,
}
use netbox_monitor.Netbox.Slug.{lower}
use netbox_monitor.Wire.Lldp.{Neighbor}
use netbox_monitor.Lldp.Pattern.{has_part, has_hp_space, has_dell}

abbrev or_empty : Option String → String
or_empty o = maybe o "" (λ s. s)

-- `SWITCH_VENDOR_RE.search(text)`, on a text in lower case
unfoldable pub names_switch_vendor : String → Bool
unfolding has_part has_hp_space has_dell
names_switch_vendor text =
    any (has_part text) (
      "cisco" ∷ "arista" ∷ "aruba" ∷ "procurve" ∷ "hewlett" ∷ "mikrotik" ∷ "routeros" ∷ "ubiquiti"
      ∷ "unifi" ∷ "edgeswitch" ∷ "edgerouter" ∷ "juniper" ∷ "fortiswitch" ∷ "netgear" ∷ "brocade"
      ∷ "extreme" ∷ "force10" ∷ "ruckus" ∷ [])
    || has_hp_space text
    || has_dell text

unfoldable pub is_bridge : Neighbor → Bool
is_bridge n = mem "bridge" n.capabilities

unfoldable pub is_crawlable_switch : Neighbor → Bool
is_crawlable_switch n =
    if not (is_bridge n) || not (is_some (truthy n.mgmt_ip))
    then false
    else names_switch_vendor (lower (or_empty n.sys_descr <> " " <> or_empty n.sysname))
