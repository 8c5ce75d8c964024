-- ===== src/Transfer/Merge.antt =====
-- config_transfer.py: `LIST_KEYS`, `_counterpart` and `merge_redacted`. A missing counterpart is
-- `null`, as `None` is in the source; `show` stands for the text of a value in a label.
pub mod Plain
pub mod Keeps
pub mod Filled
pub mod Unchanged
use netbox_monitor.Prelude.{
  ℕ, ◌+◌, String, Bool, true, false, not, ◌&&◌, Option, none, some, List, [], ◌∷◌, ◌++◌, ◌==◌, ◌=?◌,
  if◌then◌else◌, maybe, is_some, is_empty, find, map, ◌<>◌,
}
use netbox_monitor.Json.{
  Json, Items, Fields, null, bool, num, minus, str, arr, obj, no_items, item, no_fields, field, get,
  is_true,
}
use netbox_monitor.Transfer.Redact.{Step, key, every, redacted, secret_paths}

-- `==` on documents: the booleans are the numbers 0 and 1, and a dictionary has no order.
abbrev number : Bool → ℕ
number b = if b then 1 else 0

abbrev is_number : ℕ → Json → Bool
is_number n (num m) = n =? m
is_number n (bool b) = n =? number b
is_number n (minus m) = n =? 0 && m =? 0
is_number n _ = false

abbrev size : Fields → ℕ
size no_fields = 0
size (field k v fs) = size fs + 1

unfoldable mutual
  pub same : Json → Json → Bool
  same null null = true
  same (bool b) w = is_number (number b) w
  same (num n) w = is_number n w
  same (minus n) (minus m) = n =? m
  same (minus n) w = n =? 0 && is_number 0 w
  same (str s) (str t) = s == t
  same (arr xs) (arr ys) = same_items xs ys
  same (obj fs) (obj gs) = size fs =? size gs && same_fields fs gs
  same _ _ = false

  pub same_items : Items → Items → Bool
  same_items no_items no_items = true
  same_items (item x xs) (item y ys) = same x y && same_items xs ys
  same_items _ _ = false

  pub same_fields : Fields → Fields → Bool
  same_fields no_fields gs = true
  same_fields (field k v fs) gs = maybe (get k gs) false (same v) && same_fields fs gs

-- `LIST_KEYS.get(prefix)`
abbrev is_step : Step → Step → Bool
is_step (key a) (key b) = a == b
is_step every every = true
is_step _ _ = false

abbrev is_path : List Step → List Step → Bool
is_path [] [] = true
is_path (a ∷ p) (b ∷ q) = is_step a b && is_path p q
is_path _ _ = false

abbrev list_keys : List (List Step × String)
list_keys =
    (key "sites" ∷ [], "id")
    ∷ (key "sites" ∷ every ∷ key "proxmox" ∷ [], "host")
    ∷ (key "lldp" ∷ key "credentials" ∷ [], "name")
    ∷ []

unfoldable pub list_key : List Step → Option String
list_key prefix = maybe (find (λ (p, k). is_path p prefix) list_keys) none (λ (p, k). some k)

-- `d.get(key)`, where a missing key and a value of another type give `None`
abbrev pub get_in : String → Json → Json
get_in k (obj fs) = maybe (get k fs) null (λ v. v)
get_in k _ = null

abbrev is_dict : Json → Bool
is_dict (obj fs) = true
is_dict _ = false

abbrev pub is_none : Json → Bool
is_none null = true
is_none _ = false

-- The first dictionary of the list that has the wanted value at the key.
unfoldable pub first_with : String → Json → Items → Json
first_with k wanted no_items = null
first_with k wanted (item c cs) =
    if is_dict c && same (get_in k c) wanted then c else first_with k wanted cs

unfoldable pub counterpart : Json → Json → Option String → Json
counterpart entry (arr cs) (some k) =
    if is_none (get_in k entry) then null else first_with k (get_in k entry) cs
counterpart entry current k = null

-- `inc.get(head) != REDACTED`, negated
abbrev pub is_redacted : Json → Bool
is_redacted (str s) = s == redacted
is_redacted _ = false

-- A change of the elements of a container that notes labels on the way.
abbrev pub each_item : (ℕ → Json → Json × List String) → ℕ → Items → Items × List String
each_item f n no_items = (no_items, [])
each_item f n (item x xs) =
    let (y, labels) = f n x in
    let (ys, more) = each_item f (n + 1) xs in (item y ys, labels ++ more)

abbrev pub each_field : (String → Json → Json × List String) → Fields → Fields × List String
each_field f no_fields = (no_fields, [])
each_field f (field k v fs) =
    let (w, labels) = f k v in let (gs, more) = each_field f fs in (field k w gs, labels ++ more)

unfoldable pub change_at : String → (Json → Json × List String) → Fields → Fields × List String
change_at k f no_fields = (no_fields, [])
change_at k f (field j v fs) =
    let (w, labels) = f v in
    let (gs, more) = change_at k f fs in
    if j == k then (field j w fs, labels) else (field j v gs, more)

-- A secret: its value in the current configuration, or nothing rather than a guess.
unfoldable pub fill : String → Json → Json → Json × List String
fill label cur v =
    if not (is_redacted v) then (v, []) else if is_true cur then (cur, []) else (str "", label ∷ [])

module _ (show : Json → String) where
  abbrev item_label : String → Option String → ℕ → Json → String
  item_label trail k n entry =
      let ident = maybe k null (λ j. get_in j entry) in
      trail <> "[" <> (if is_none ident then show (num n) else show ident) <> "]"

  abbrev label_of : String → String → String
  label_of trail head = if is_empty trail then head else trail <> "." <> head

  -- `walk(inc, cur, path, prefix, trail)`
  unfoldable pub merge_at : List Step → List Step → String → Json → Json → Json × List String
  merge_at [] prefix trail inc cur = (inc, [])
  merge_at (every ∷ rest) prefix trail (arr items) cur =
      let (ys, labels) =
        each_item
          (λ n entry.
            merge_at rest (prefix ++ every ∷ []) (item_label trail (list_key prefix) n entry) entry
              (counterpart entry cur (list_key prefix)))
          0 items in
      (arr ys, labels)
  merge_at (every ∷ rest) prefix trail (obj fields) cur =
      let (gs, labels) =
        each_field
          (λ name entry.
            merge_at rest (prefix ++ every ∷ []) (trail <> "[" <> name <> "]") entry
              (get_in name cur))
          fields in
      (obj gs, labels)
  merge_at (key head ∷ []) prefix trail (obj fields) cur =
      let (gs, labels) = change_at head (fill (label_of trail head) (get_in head cur)) fields in
      (obj gs, labels)
  merge_at (key head ∷ step ∷ rest) prefix trail (obj fields) cur =
      let (gs, labels) =
        change_at head
          (λ v.
            merge_at (step ∷ rest) (prefix ++ key head ∷ []) (label_of trail head) v
              (get_in head cur))
          fields in
      (obj gs, labels)
  merge_at path prefix trail inc cur = (inc, [])

  unfoldable pub merge_paths : List (List Step) → Json → Json → Json × List String
  merge_paths [] inc cur = (inc, [])
  merge_paths (p ∷ ps) inc cur =
      let (out, labels) = merge_at p [] "" inc cur in
      let (last, more) = merge_paths ps out cur in (last, labels ++ more)

  unfoldable pub merge_redacted : Json → Json → Json × List String
  merge_redacted = merge_paths secret_paths
