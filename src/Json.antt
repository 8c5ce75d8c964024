-- ===== src/Json.antt =====
-- JSON documents, as config.py and config_transfer.py handle them: an object keeps its keys in the
-- order of insertion, and a numeral is a whole number.
use netbox_monitor.Prelude.{
  ℕ, String, ◌≡◌, refl, Bool, true, false, not, Option, none, some, ◌==◌, ◌=?◌, if◌then◌else◌,
  non_empty, eq_iff, arith,
}
use text.Mathlib.TextPositions.{eq_refl}

mutual
  pub data Json : Type 0 where
    null : Json
    bool : Bool → Json
    num : ℕ → Json
    minus : ℕ → Json  -- a negative number, by its absolute value
    str : String → Json
    arr : Items → Json
    obj : Fields → Json

  pub data Items : Type 0 where
    no_items : Items
    item : Json → Items → Items

  pub data Fields : Type 0 where
    no_fields : Fields
    field : String → Json → Fields → Fields

-- `bool(node)`
abbrev pub is_true : Json → Bool
is_true null = false
is_true (bool b) = b
is_true (num n) = not (n =? 0)
is_true (minus n) = not (n =? 0)
is_true (str s) = non_empty s
is_true (arr no_items) = false
is_true (arr (item x xs)) = true
is_true (obj no_fields) = false
is_true (obj (field k v fs)) = true

-- `d.get(key)` on a dictionary, with nothing for a missing key
unfoldable pub get : String → Fields → Option Json
get key no_fields = none
get key (field k v fs) = if k == key then some v else get key fs

-- `d[key] = value`
unfoldable pub set : String → Json → Fields → Fields
set key value no_fields = field key value no_fields
set key value (field k v fs) = if k == key then field k value fs else field k v (set key value fs)

-- `d.pop(key, None)`
unfoldable pub remove : String → Fields → Fields
remove key no_fields = no_fields
remove key (field k v fs) = let rest = remove key fs in if k == key then rest else field k v rest

-- `d[key] = f(d[key])`, where the key is there
unfoldable pub change : String → (Json → Json) → Fields → Fields
change key f no_fields = no_fields
change key f (field k v fs) = if k == key then field k (f v) fs else field k v (change key f fs)

abbrev pub map_items : (Json → Json) → Items → Items
map_items f no_items = no_items
map_items f (item x xs) = item (f x) (map_items f xs)

abbrev pub map_fields : (Json → Json) → Fields → Fields
map_fields f no_fields = no_fields
map_fields f (field k v fs) = field k (f v) (map_fields f fs)

pub get-set :
    (k j : String) (v : Json) (d : Fields)
    → get j (set k v d) ≡ (if k == j then some v else get j d)
unfolding get set
get-set k j v no_fields = refl
get-set k j v (field i w d) = ground (arith, eq_iff k j, eq_iff i k, eq_iff i j, get-set k j v d)

pub get-remove :
    (k j : String) (d : Fields) → get j (remove k d) ≡ (if k == j then none else get j d)
unfolding get remove
get-remove k j no_fields = ground arith
get-remove k j (field i w d) = ground (arith, eq_iff k j, eq_iff i k, eq_iff i j, get-remove k j d)

pub set-set : (k : String) (v : Json) (d : Fields) → set k v (set k v d) ≡ set k v d
unfolding set
set-set k v no_fields = ground (arith, eq_refl k)
set-set k v (field i w d) = ground (arith, eq_iff i k, set-set k v d)

pub get-change :
    (k j : String) (f : Json → Json) (d : Fields)
    → (k == j) ≡ false
    → get j (change k f d) ≡ get j d
unfolding get change
get-change k j f no_fields other = refl
get-change k j f (field i w d) other =
    ground (arith, eq_iff k j, eq_iff i k, eq_iff i j, other, get-change k j f d other)
