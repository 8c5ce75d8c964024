-- ===== src/Transfer/Hidden.antt =====
-- After `redact`, no secret is left: every value at a secret path is empty or the sentinel.
use netbox_monitor.Prelude.{
  String, ◌≡◌, refl, ◌∙◌, false, Option, none, some, List, [], ◌∷◌, All, ◌==◌,
}
use netbox_monitor.Json.{
  Json, Items, Fields, arr, obj, no_items, item, no_fields, field, get, remove, change, map_items,
  map_fields, get-set, get-remove, get-change,
}
use netbox_monitor.Transfer.Redact.{
  Step, key, every, secret_paths, walk, hide, redact_paths, redact, payload, redacted_export,
}
use netbox_monitor.Transfer.Secret.{
  AllItems, AllFields, AllAt, IsHidden, hide-IsHidden, hide-Keeps, walk-Keeps, get-change_same,
}

items-everywhere :
    (P : Json → Type 0) (f : Json → Json) (xs : Items)
    → ((v : Json) → P (f v))
    → AllItems P (map_items f xs)
items-everywhere P f no_items step = tt
items-everywhere P f (item x xs) step = (step x, items-everywhere P f xs step)

fields-everywhere :
    (P : Json → Type 0) (f : Json → Json) (fs : Fields)
    → ((v : Json) → P (f v))
    → AllFields P (map_fields f fs)
fields-everywhere P f no_fields step = tt
fields-everywhere P f (field k v fs) step = (step v, fields-everywhere P f fs step)

changed-everywhere :
    (P : Json → Type 0) (f : Json → Json) (k : String) (fs : Fields)
    → ((v : Json) → P (f v))
    → (v : Json) → get k (change k f fs) ≡ some v
    → P v
changed-everywhere P f k fs step v p =
    let (w, found, eq) = get-change_same k f fs v p in rw eq (step w)

walk-hides : (p : List Step) (v : Json) → AllAt IsHidden p (walk hide p v)
unfolding walk
walk-hides [] v = tt
walk-hides (every ∷ p) (arr xs) =
    items-everywhere (AllAt IsHidden p) (walk hide p) xs (walk-hides p)
walk-hides (every ∷ p) (obj fs) =
    fields-everywhere (AllAt IsHidden p) (walk hide p) fs (walk-hides p)
walk-hides (key k ∷ []) (obj fs) = changed-everywhere IsHidden hide k fs hide-IsHidden
walk-hides (key k ∷ s ∷ p) (obj fs) =
    changed-everywhere (AllAt IsHidden (s ∷ p)) (walk hide (s ∷ p)) k fs (walk-hides (s ∷ p))
walk-hides (every ∷ p) v = tt
walk-hides (key k ∷ []) v = tt
walk-hides (key k ∷ s ∷ p) v = tt

redact_paths-keeps :
    (ps : List (List Step)) (p : List Step) (d : Json)
    → AllAt IsHidden p d
    → AllAt IsHidden p (redact_paths ps d)
unfolding redact_paths
redact_paths-keeps [] p d h = h
redact_paths-keeps (q ∷ ps) p d h =
    let k = walk-Keeps hide hide-Keeps q in redact_paths-keeps ps p (walk hide q d) (k.at p d h)

redact_paths-hides :
    (ps : List (List Step)) (d : Json) → All (λ p. AllAt IsHidden p (redact_paths ps d)) ps
unfolding redact_paths
redact_paths-hides [] d = tt
redact_paths-hides (p ∷ ps) d = (
  redact_paths-keeps ps p (walk hide p d) (walk-hides p d),
  redact_paths-hides ps (walk hide p d),
)

-- Whatever the configuration is, every value that one of the secret paths leads to in an export
-- without a passphrase is empty or the sentinel.
pub redacted_export-hides :
    (dump : Fields) → All (λ p. AllAt IsHidden p (redacted_export dump)) secret_paths
unfolding redacted_export redact
redacted_export-hides dump = redact_paths-hides secret_paths (obj (payload dump))

-- The value at a key of a document.
abbrev pub member : String → Json → Option Json
member k (obj fs) = get k fs
member k v = none

-- no path of the list is a single step, or starts with the key or with `*`
abbrev pub Misses : String → List Step → Type 0
Misses k [] = Unit
Misses k (every ∷ p) = ⊥
Misses k (key j ∷ p) = (j == k) ≡ false

walk-Misses :
    (f : Json → Json) (k : String) (p : List Step) (v : Json)
    → Misses k p
    → member k (walk f p v) ≡ member k v
unfolding walk
walk-Misses f k [] v m = refl
walk-Misses f k (every ∷ p) v m = absurd m
walk-Misses f k (key j ∷ []) (obj fs) m = get-change j k f fs m
walk-Misses f k (key j ∷ s ∷ p) (obj fs) m = get-change j k (walk f (s ∷ p)) fs m
walk-Misses f k (key j ∷ []) v m = refl
walk-Misses f k (key j ∷ s ∷ p) v m = refl

redact_paths-Misses :
    (k : String) (ps : List (List Step)) (v : Json)
    → All (Misses k) ps
    → member k (redact_paths ps v) ≡ member k v
unfolding redact_paths
redact_paths-Misses k [] v m = refl
redact_paths-Misses k (p ∷ ps) v m =
    redact_paths-Misses k ps (walk hide p v) m.1 ∙ walk-Misses hide k p v m.0

pub sections : All (Misses "webui") secret_paths
sections = (refl, (refl, (refl, (refl, (refl, (refl, (refl, (refl, (refl, tt)))))))))

-- An export without a passphrase has no `webui` section.
redacted_export-webui : (dump : Fields) → member "webui" (redacted_export dump) ≡ none
unfolding redacted_export redact payload
redacted_export-webui dump =
    redact_paths-Misses "webui" secret_paths (obj (payload dump)) sections
    ∙ get-set "schema_version" "webui" _ (remove "webui" dump)
    ∙ get-remove "webui" "webui" dump
