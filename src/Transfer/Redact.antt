-- ===== src/Transfer/Redact.antt =====
-- config_transfer.py: `SECRET_PATHS`, `_walk`, `redact`, and the payload of `export_config`.
use netbox_monitor.Prelude.{String, List, [], ◌∷◌, if◌then◌else◌}
use netbox_monitor.Json.{
  Json, Fields, num, str, arr, obj, set, remove, change, map_items, map_fields, is_true,
}
use netbox_monitor.Config.{config_schema_version}

-- One step of a path: a key, or `*` for every element of a list and every value of a dictionary.
pub data Step : Type 0 where
  key : String → Step
  every : Step

abbrev pub redacted : String
redacted = "__REDACTED__"

abbrev pub secret_paths : List (List Step)
secret_paths =
    (key "netbox" ∷ key "token" ∷ [])
    ∷ (key "sites" ∷ every ∷ key "technitium" ∷ key "token" ∷ [])
    ∷ (key "sites" ∷ every ∷ key "proxmox" ∷ every ∷ key "token_value" ∷ [])
    ∷ (key "sites" ∷ every ∷ key "lldp" ∷ key "snmp_community" ∷ [])
    ∷ (key "sites" ∷ every ∷ key "lldp" ∷ key "ssh_password" ∷ [])
    ∷ (key "lldp" ∷ key "credentials" ∷ every ∷ key "password" ∷ [])
    ∷ (key "lldp" ∷ key "credentials" ∷ every ∷ key "snmp_community" ∷ [])
    ∷ (key "lldp" ∷ key "fallback_creds" ∷ every ∷ key "community" ∷ [])
    ∷ (key "lldp" ∷ key "fallback_creds" ∷ every ∷ key "password" ∷ [])
    ∷ []

-- `_walk(node, path, visit)` for a visit that changes `container[key]` to `f(container[key])`
unfoldable pub walk : (Json → Json) → List Step → Json → Json
walk f [] node = node
walk f (every ∷ rest) (arr items) = arr (map_items (walk f rest) items)
walk f (every ∷ rest) (obj fields) = obj (map_fields (walk f rest) fields)
walk f (key k ∷ []) (obj fields) = obj (change k f fields)
walk f (key k ∷ step ∷ rest) (obj fields) = obj (change k (walk f (step ∷ rest)) fields)
walk f path node = node

-- `hide`: an empty value stays empty
unfoldable pub hide : Json → Json
hide v = if is_true v then str redacted else v

unfoldable pub redact_paths : List (List Step) → Json → Json
redact_paths [] data' = data'
redact_paths (p ∷ ps) data' = redact_paths ps (walk hide p data')

unfoldable pub redact : Json → Json
redact = redact_paths secret_paths

-- The payload of an export: `webui` never leaves the instance.
unfoldable pub payload : Fields → Fields
payload dump = set "schema_version" (num config_schema_version) (remove "webui" dump)

-- `envelope["config"]` of an export without a passphrase
unfoldable pub redacted_export : Fields → Json
redacted_export dump = redact (obj (payload dump))
