-- ===== src/Transfer/Secret.antt =====
-- The values that a path leads to, and walks that leave hidden what is hidden.
use netbox_monitor.Prelude.{
  String, ◌≡◌, refl, sym, ◌∙◌, true, some, List, [], ◌∷◌, ◌==◌, arith, eq_iff, if-holds, Bool-cases,
  inl, inr,
}
use netbox_monitor.Json.{
  Json, Items, Fields, null, bool, num, minus, str, arr, obj, no_items, item, no_fields, field, get,
  change, map_items, map_fields, is_true, get-change,
}
use netbox_monitor.Transfer.Redact.{Step, key, every, redacted, walk, hide}

abbrev pub AllItems : (Json → Type 0) → Items → Type 0
AllItems P no_items = Unit
AllItems P (item x xs) = P x × AllItems P xs

abbrev pub AllFields : (Json → Type 0) → Fields → Type 0
AllFields P no_fields = Unit
AllFields P (field k v fs) = P v × AllFields P fs

-- Every value that a path leads to.
abbrev pub AllAt : (Json → Type 0) → List Step → Json → Type 0
AllAt P [] node = Unit
AllAt P (every ∷ rest) (arr items) = AllItems (AllAt P rest) items
AllAt P (every ∷ rest) (obj fields) = AllFields (AllAt P rest) fields
AllAt P (key k ∷ []) (obj fields) = (v : Json) → get k fields ≡ some v → P v
AllAt P (key k ∷ step ∷ rest) (obj fields) =
    (v : Json) → get k fields ≡ some v → AllAt P (step ∷ rest) v
AllAt P path node = Unit

-- empty, or the sentinel
abbrev pub IsHidden : Json → Type 0
IsHidden v = is_true v ≡ true → v ≡ str redacted

map_items-All :
    (P Q : Json → Type 0) (f : Json → Json) (xs : Items)
    → ((v : Json) → P v → Q (f v))
    → AllItems P xs
    → AllItems Q (map_items f xs)
map_items-All P Q f no_items step h = tt
map_items-All P Q f (item x xs) step h = (step x h.0, map_items-All P Q f xs step h.1)

map_fields-All :
    (P Q : Json → Type 0) (f : Json → Json) (fs : Fields)
    → ((v : Json) → P v → Q (f v))
    → AllFields P fs
    → AllFields Q (map_fields f fs)
map_fields-All P Q f no_fields step h = tt
map_fields-All P Q f (field k v fs) step h = (step v h.0, map_fields-All P Q f fs step h.1)

change-All :
    {P : Json → Type 0} (k : String) (f : Json → Json) (fs : Fields)
    → ((v : Json) → P v → P (f v))
    → AllFields P fs
    → AllFields P (change k f fs)
unfolding change
change-All k f no_fields step h = tt
change-All k f (field j v fs) step h = elim (Bool-cases (j == k)) [
  | inl same ↦ rw same (step v h.0, h.1)
  | inr other ↦ rw other (h.0, change-All k f fs step h.1)
]

-- A value that a changed dictionary has comes from one of the old dictionary.
pub get-change_same :
    (k : String) (f : Json → Json) (fs : Fields) (v : Json)
    → get k (change k f fs) ≡ some v
    → (w : Json) × (get k fs ≡ some w) × (v ≡ f w)
unfolding get change
get-change_same k f no_fields v h = absurd (ground (arith, h))
get-change_same k f (field j w fs) v h = elim (Bool-cases (j == k)) [
  | inl same ↦ (w, rw same refl, ground (arith, h, same))
  | inr other ↦
      let (u, p, q) = get-change_same k f fs v (ground (arith, h, other)) in (u, rw other p, q)
]

get-map_fields :
    (k : String) (f : Json → Json) (fs : Fields) (v : Json)
    → get k (map_fields f fs) ≡ some v
    → (w : Json) × (get k fs ≡ some w) × (v ≡ f w)
unfolding get
get-map_fields k f no_fields v h = absurd (ground (arith, h))
get-map_fields k f (field j w fs) v h = elim (Bool-cases (j == k)) [
  | inl same ↦ (w, rw same refl, ground (arith, h, same))
  | inr other ↦
      let (u, p, q) = get-map_fields k f fs v (ground (arith, h, other)) in (u, rw other p, q)
]

AllAt-str : (P : Json → Type 0) (p : List Step) (s : String) → AllAt P p (str s)
AllAt-str P [] s = tt
AllAt-str P (every ∷ rest) s = tt
AllAt-str P (key k ∷ []) s = tt
AllAt-str P (key k ∷ step ∷ rest) s = tt

pub hide-IsHidden : (v : Json) → IsHidden (hide v)
unfolding hide
hide-IsHidden v h = elim (Bool-cases (is_true v)) [
  | inl t ↦ rw t refl
  | inr f ↦ absurd (ground (arith, h, f))
]

-- A change that leaves hidden what is hidden, at every path.
pub record Keeps (f : Json → Json) : Type 0 where
  pub at : (p : List Step) (v : Json) → AllAt IsHidden p v → AllAt IsHidden p (f v)
  pub leaf : (v : Json) → IsHidden v → IsHidden (f v)

pub hide-Keeps : Keeps hide
unfolding hide
hide-Keeps = record {
  at = λ p v h.
      if-holds (AllAt IsHidden p) (is_true v) (str redacted) v (λ _. AllAt-str IsHidden p redacted)
        (λ _. h);
  leaf = λ v h. hide-IsHidden v;
}

module _ (f : Json → Json) (k : Keeps f) where
  map_fields-at :
      (p : List Step) (fs : Fields)
      → AllAt IsHidden p (obj fs)
      → AllAt IsHidden p (obj (map_fields f fs))
  map_fields-at [] fs h = tt
  map_fields-at (every ∷ rest) fs h =
      map_fields-All (AllAt IsHidden rest) (AllAt IsHidden rest) f fs (k.at rest) h
  map_fields-at (key j ∷ []) fs h =
      λ v p. let (w, found, same) = get-map_fields j f fs v p in rw same (k.leaf w (h w found))
  map_fields-at (key j ∷ step ∷ rest) fs h = λ v p.
      let (w, found, same) = get-map_fields j f fs v p in rw same (k.at (step ∷ rest) w (h w found))

  map_items-at :
      (p : List Step) (xs : Items)
      → AllAt IsHidden p (arr xs)
      → AllAt IsHidden p (arr (map_items f xs))
  map_items-at [] xs h = tt
  map_items-at (every ∷ rest) xs h =
      map_items-All (AllAt IsHidden rest) (AllAt IsHidden rest) f xs (k.at rest) h
  map_items-at (key j ∷ []) xs h = tt
  map_items-at (key j ∷ step ∷ rest) xs h = tt

  -- a property of the value at a key, after the value at some key has changed
  at_changed :
      (P : Json → Type 0) (i j : String) (fs : Fields)
      → ((w : Json) → P w → P (f w))
      → ((v : Json) → get j fs ≡ some v → P v)
      → (v : Json) → get j (change i f fs) ≡ some v
      → P v
  at_changed P i j fs step h v p = elim (Bool-cases (i == j)) [
    | inl same ↦
        let (w, found, eq) = get-change_same j f fs v (ground (arith, p, eq_iff i j)) in
        rw eq (step w (h w found))
    | inr other ↦ h v (sym (get-change i j f fs other) ∙ p)
  ]

  change-at :
      (i : String) (p : List Step) (fs : Fields)
      → AllAt IsHidden p (obj fs)
      → AllAt IsHidden p (obj (change i f fs))
  change-at i [] fs h = tt
  change-at i (every ∷ rest) fs h = change-All i f fs (k.at rest) h
  change-at i (key j ∷ []) fs h = at_changed IsHidden i j fs k.leaf h
  change-at i (key j ∷ step ∷ rest) fs h =
      at_changed (AllAt IsHidden (step ∷ rest)) i j fs (k.at (step ∷ rest)) h

-- A walk leaves an empty value and the sentinel as they are.
walk-leaf : (f : Json → Json) (q : List Step) (v : Json) → IsHidden v → IsHidden (walk f q v)
unfolding walk change
walk-leaf f [] v h = h
walk-leaf f (every ∷ q) null h = h
walk-leaf f (every ∷ q) (bool b) h = h
walk-leaf f (every ∷ q) (num n) h = h
walk-leaf f (every ∷ q) (minus n) h = h
walk-leaf f (every ∷ q) (str s) h = h
walk-leaf f (every ∷ q) (arr no_items) h = h
walk-leaf f (every ∷ q) (arr (item x xs)) h = absurd (ground (arith, h refl))
walk-leaf f (every ∷ q) (obj no_fields) h = h
walk-leaf f (every ∷ q) (obj (field k v fs)) h = absurd (ground (arith, h refl))
walk-leaf f (key k ∷ []) (obj no_fields) h = h
walk-leaf f (key k ∷ []) (obj (field j v fs)) h = absurd (ground (arith, h refl))
walk-leaf f (key k ∷ s ∷ q) (obj no_fields) h = h
walk-leaf f (key k ∷ s ∷ q) (obj (field j v fs)) h = absurd (ground (arith, h refl))
walk-leaf f (key k ∷ []) v h = h
walk-leaf f (key k ∷ s ∷ q) v h = h

pub walk-Keeps : (f : Json → Json) → Keeps f → (q : List Step) → Keeps (walk f q)
unfolding walk
walk-Keeps f k [] = record { at = λ p v h. h; leaf = λ v h. h }
walk-Keeps f k (every ∷ q) =
    let rest = walk-Keeps f k q in
    record {
      at = λ p v h.
          elim v as (λ u. AllAt IsHidden p u → AllAt IsHidden p (walk f (every ∷ q) u)) [
            | arr xs ↦ map_items-at (walk f q) rest p xs
            | obj fs ↦ map_fields-at (walk f q) rest p fs
            | _ ↦ λ g. g
          ]
            h;
      leaf = walk-leaf f (every ∷ q);
    }
walk-Keeps f k (key i ∷ []) = record {
  at = λ p v h.
      elim v as (λ u. AllAt IsHidden p u → AllAt IsHidden p (walk f (key i ∷ []) u)) [
        | obj fs ↦ change-at f k i p fs
        | _ ↦ λ g. g
      ]
        h;
  leaf = walk-leaf f (key i ∷ []);
}
walk-Keeps f k (key i ∷ s ∷ q) =
    let rest = walk-Keeps f k (s ∷ q) in
    record {
      at = λ p v h.
          elim v as (λ u. AllAt IsHidden p u → AllAt IsHidden p (walk f (key i ∷ s ∷ q) u)) [
            | obj fs ↦ change-at (walk f (s ∷ q)) rest i p fs
            | _ ↦ λ g. g
          ]
            h;
      leaf = walk-leaf f (key i ∷ s ∷ q);
    }
