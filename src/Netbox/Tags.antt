-- ===== src/Netbox/Tags.antt =====
-- Which tags and custom fields the client's updates ask for.
use text.Mathlib.TextPositions.{eq_refl}
use netbox_monitor.Prelude.{
  String, ◌≡◌, refl, Bool, true, false, not, none, some, List, [], ◌∷◌, keep, mem, Dict, lookup,
  insert, lookup-insert, eq_iff, arith, ◌==◌, maybe, Bool-cases, Option-cases, is_some, inl, inr,
}
use netbox_monitor.Wire.Object.{Obj, Tag}
use netbox_monitor.Effects.{pure}
use netbox_monitor.Netbox.{changed_fields, merge_fields, Client, set_custom_fields}

-- the tags whose slug is not on the list
abbrev pub without : List String → List Tag → List Tag
without slugs = keep (λ t. not (mem t.slug slugs))

-- a dictionary has each key once
abbrev pub NodupKeys : Dict String → Type 0
NodupKeys [] = Unit
NodupKeys ((k, v) ∷ d) = (lookup k d ≡ none) × NodupKeys d

abbrev has_value : Dict String → String → String → Bool
has_value current k v = maybe (lookup k current) false (λ old. old == v)

has_value_lem :
    (current : Dict String) (k v : String)
    → has_value current k v ≡ true
    → lookup k current ≡ some v
has_value_lem current k v h = elim (Option-cases (lookup k current)) [
  | inl p ↦ ground (arith, p)
  | inr (w, p) ↦ ground (arith, p, eq_iff w v)
]

module _ (current : Dict String) where
  merge-onto :
      (new : Dict String) (acc : Dict String)
      → NodupKeys new
      → ((i : String) → is_some (lookup i new) ≡ true → lookup i acc ≡ lookup i current)
      → (k : String)
      → lookup k (merge_fields acc (changed_fields current new))
        ≡ maybe (lookup k new) (lookup k acc) some
  unfolding lookup merge_fields changed_fields
  merge-onto [] acc d h k = refl
  merge-onto ((j, v) ∷ new) acc d h k = elim (Bool-cases (has_value current j v)) [
    | inl same ↦
        let kept = h j (ground (arith, eq_refl j)) in
        let rest = merge-onto new acc d.1 (λ i p. h i (ground (arith, p))) k in
        ground (arith, rest, same, kept, has_value_lem current j v same, d.0, eq_iff j k)
    | inr other ↦
        let rest =
          merge-onto new (insert j v acc) d.1
            (λ i p. ground (arith, lookup-insert j i v acc, h i, d.0, eq_iff j i)) k in
        ground (arith, rest, other, lookup-insert j k v acc, d.0, eq_iff j k)
  ]

-- The dictionary that `set_custom_fields` asks for.
abbrev pub fields_after : Dict String → Dict String → Dict String
fields_after current new = merge_fields current (changed_fields current new)

pub lookup-fields_after :
    (current new : Dict String)
    → NodupKeys new
    → (k : String)
    → lookup k (fields_after current new) ≡ maybe (lookup k new) (lookup k current) some
lookup-fields_after current new d = merge-onto current new current d (λ i p. refl)

changed_fields-settled :
    (current new : Dict String)
    → NodupKeys new
    → ((k : String) → is_some (lookup k new) ≡ true → lookup k current ≡ lookup k new)
    → changed_fields current new ≡ []
unfolding changed_fields lookup
changed_fields-settled current [] d h = refl
changed_fields-settled current ((k, v) ∷ new) d h = ground (
  arith,
  eq_refl k,
  eq_refl v,
  h k,
  changed_fields-settled current new d.1 (λ i p. ground (arith, h i, p, d.0, eq_iff k i)),
)

-- Setting the same fields again, on an object that has the fields of the first payload, asks for
-- nothing.
pub set_custom_fields-settles :
    (c : Client) (o : Obj) (new : Dict String)
    → NodupKeys new
    → set_custom_fields c (record o { custom_fields = fields_after o.custom_fields new }) new
      ≡ pure (false, record o { custom_fields = fields_after o.custom_fields new })
unfolding set_custom_fields
set_custom_fields-settles c o new d = rw (
    changed_fields-settled (fields_after o.custom_fields new) new d
      (λ k p. ground (arith, lookup-fields_after o.custom_fields new d k, p)))
