-- ===== src/Sync/Common/Respect.antt =====
-- sync/common.py leaves alone what a human documented: of an object that is not ours, the custom
-- fields are written, and nothing else.
use netbox_monitor.Prelude.{String, ◌≡◌, refl, false, some, [], ◌∷◌, Dict}
use netbox_monitor.Wire.Object.{Obj, Payload}
use netbox_monitor.Wire.Request.{Request}
use netbox_monitor.Effects.Only.{Only, only_rules}
use netbox_monitor.Netbox
use netbox_monitor.Netbox.{Client, is_managed, set_custom_fields}
use netbox_monitor.Sync.Common.Upsert.{IpSpec, update_ip}

-- a payload that has custom fields only
abbrev pub FieldsOnly : Payload → Type 0
FieldsOnly [] = Unit
FieldsOnly ((k, v) ∷ d) = (k ≡ "custom_fields") × FieldsOnly d

-- Reads, and writes of the custom fields.
abbrev pub Respects : Request → Type 0
Respects (Request.create e d) = ⊥
Respects (Request.delete o) = ⊥
Respects (Request.update o d) = FieldsOnly d
Respects _ = Unit {0}

set_custom_fields-Respects :
    (c : Client) (o : Obj) (d : Dict String) → Only Respects (set_custom_fields c o d)
unfolding set_custom_fields Netbox.update
set_custom_fields-Respects c o d = search (only_rules, tt, refl {A = String} {a = "custom_fields"})

-- Of an IP address that does not carry both the managed tag and the source's tag, `update_ip` (the part of `upsert_ip` for an IP that exists) writes
-- the custom fields only, and it deletes and creates nothing.
pub update_ip-unmanaged :
    (c : Client) (spec : IpSpec) (d : Dict String) (o : Obj)
    → is_managed o (some spec.source_slug) ≡ false
    → Only Respects (update_ip c spec d o)
unfolding update_ip
update_ip-unmanaged c spec d o human = rw human (search (only_rules, set_custom_fields-Respects))
