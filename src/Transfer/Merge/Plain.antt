-- ===== src/Transfer/Merge/Plain.antt =====
-- The values of a configuration that a merge reads: secrets that are plain values, wherever the
-- counterpart of an entry is.
use netbox_monitor.Prelude.{
  String, ◌≡◌, refl, false, Option, none, some, List, [], ◌∷◌, ◌==◌, arith, Bool-cases, inl, inr,
  if-holds, Option-cases,
}
use netbox_monitor.Json.{
  Json, Items, Fields, null, bool, num, minus, str, arr, obj, no_items, item, no_fields, field, get,
}
use netbox_monitor.Transfer.Redact.{Step, key, every, redacted}
use netbox_monitor.Transfer.Secret.{AllItems, AllFields, AllAt}
use netbox_monitor.Transfer.Merge.{get_in, first_with, counterpart, is_redacted}

-- A value that is not the sentinel.
abbrev pub IsReal : Json → Type 0
IsReal v = is_redacted v ≡ false

-- A value that is not the sentinel, and no container: what a secret of a validated configuration is.
abbrev pub IsPlain : Json → Type 0
IsPlain (arr xs) = ⊥
IsPlain (obj fs) = ⊥
IsPlain (str s) = (s == redacted) ≡ false
IsPlain v = Unit

pub IsPlain-IsReal : (v : Json) → IsPlain v → IsReal v
IsPlain-IsReal (arr xs) h = absurd h
IsPlain-IsReal (obj fs) h = absurd h
IsPlain-IsReal (str s) h = h
IsPlain-IsReal null h = refl
IsPlain-IsReal (bool b) h = refl
IsPlain-IsReal (num n) h = refl
IsPlain-IsReal (minus n) h = refl

-- Nothing lies below a value that is no container.
module _ (P : Json → Type 0) where
  pub AllAt-IsPlain : (p : List Step) (v : Json) → IsPlain v → AllAt P p v
  AllAt-IsPlain [] v h = tt
  AllAt-IsPlain (s ∷ p) (arr xs) h = absurd h
  AllAt-IsPlain (s ∷ p) (obj fs) h = absurd h
  AllAt-IsPlain (every ∷ p) (str s) h = tt
  AllAt-IsPlain (every ∷ p) null h = tt
  AllAt-IsPlain (every ∷ p) (bool b) h = tt
  AllAt-IsPlain (every ∷ p) (num n) h = tt
  AllAt-IsPlain (every ∷ p) (minus n) h = tt
  AllAt-IsPlain (key k ∷ []) (str s) h = tt
  AllAt-IsPlain (key k ∷ []) null h = tt
  AllAt-IsPlain (key k ∷ []) (bool b) h = tt
  AllAt-IsPlain (key k ∷ []) (num n) h = tt
  AllAt-IsPlain (key k ∷ []) (minus n) h = tt
  AllAt-IsPlain (key k ∷ s ∷ p) (str t) h = tt
  AllAt-IsPlain (key k ∷ s ∷ p) null h = tt
  AllAt-IsPlain (key k ∷ s ∷ p) (bool b) h = tt
  AllAt-IsPlain (key k ∷ s ∷ p) (num n) h = tt
  AllAt-IsPlain (key k ∷ s ∷ p) (minus n) h = tt

pub AllFields-get :
    (Q : Json → Type 0) (k : String) (fs : Fields) (v : Json)
    → AllFields Q fs
    → get k fs ≡ some v
    → Q v
unfolding get
AllFields-get Q k no_fields v h e = absurd (ground (arith, e))
AllFields-get Q k (field j w fs) v h e = elim (Bool-cases (j == k)) [
  | inl same ↦ let eq : w ≡ v = ground (arith, e, same) in rw (← eq) h.0
  | inr other ↦ AllFields-get Q k fs v h.1 (ground (arith, e, other))
]

AllItems-first_with :
    (Q : Json → Type 0) (k : String) (wanted : Json) (cs : Items)
    → Q null
    → AllItems Q cs
    → Q (first_with k wanted cs)
unfolding first_with
AllItems-first_with Q k wanted no_items n h = n
AllItems-first_with Q k wanted (item c cs) n h =
    if-holds Q _ c (first_with k wanted cs) (λ _. h.0)
      (λ _. AllItems-first_with Q k wanted cs n h.1)

-- The counterpart of an entry has plain secrets, as the container has.
pub counterpart-IsPlain :
    (rest : List Step) (entry cur : Json) (k : Option String)
    → AllAt IsPlain (every ∷ rest) cur
    → AllAt IsPlain rest (counterpart entry cur k)
unfolding counterpart
counterpart-IsPlain rest entry (arr cs) (some k) h =
    let n = AllAt-IsPlain IsPlain rest null tt in
    if-holds (AllAt IsPlain rest) _ null (first_with k (get_in k entry) cs) (λ _. n)
      (λ _. AllItems-first_with (AllAt IsPlain rest) k (get_in k entry) cs n h)
counterpart-IsPlain rest entry (arr cs) none h = AllAt-IsPlain IsPlain rest null tt
counterpart-IsPlain rest entry (obj fs) k h = AllAt-IsPlain IsPlain rest null tt
counterpart-IsPlain rest entry (str s) k h = AllAt-IsPlain IsPlain rest null tt
counterpart-IsPlain rest entry null k h = AllAt-IsPlain IsPlain rest null tt
counterpart-IsPlain rest entry (bool b) k h = AllAt-IsPlain IsPlain rest null tt
counterpart-IsPlain rest entry (num n) k h = AllAt-IsPlain IsPlain rest null tt
counterpart-IsPlain rest entry (minus n) k h = AllAt-IsPlain IsPlain rest null tt

-- What a dictionary has at a name, by a property of all its values, or of the value at that name.
pub every_get_in :
    (Q : Json → Type 0) (name : String) (fs : Fields)
    → Q null
    → AllFields Q fs
    → Q (get_in name (obj fs))
every_get_in Q name fs n h = elim (Option-cases (get name fs)) [
  | inl p ↦ rw p n
  | inr (v, p) ↦ rw p (AllFields-get Q name fs v h p)
]

pub key_get_in :
    (Q : Json → Type 0) (name : String) (fs : Fields)
    → Q null
    → ((v : Json) → get name fs ≡ some v → Q v)
    → Q (get_in name (obj fs))
key_get_in Q name fs n h = elim (Option-cases (get name fs)) [
  | inl p ↦ rw p n
  | inr (v, p) ↦ rw p (h v p)
]

-- The counterpart of a dictionary's value has plain secrets too, and so has the value at a key.
pub name-IsPlain :
    (rest : List Step) (name : String) (cur : Json)
    → AllAt IsPlain (every ∷ rest) cur
    → AllAt IsPlain rest (get_in name cur)
name-IsPlain rest name (obj fs) h =
    every_get_in (AllAt IsPlain rest) name fs (AllAt-IsPlain IsPlain rest null tt) h
name-IsPlain rest name (arr xs) h = AllAt-IsPlain IsPlain rest null tt
name-IsPlain rest name (str s) h = AllAt-IsPlain IsPlain rest null tt
name-IsPlain rest name null h = AllAt-IsPlain IsPlain rest null tt
name-IsPlain rest name (bool b) h = AllAt-IsPlain IsPlain rest null tt
name-IsPlain rest name (num n) h = AllAt-IsPlain IsPlain rest null tt
name-IsPlain rest name (minus n) h = AllAt-IsPlain IsPlain rest null tt

pub inner-IsPlain :
    (s : Step) (rest : List Step) (name : String) (cur : Json)
    → AllAt IsPlain (key name ∷ s ∷ rest) cur
    → AllAt IsPlain (s ∷ rest) (get_in name cur)
inner-IsPlain s rest name (obj fs) h =
    key_get_in (AllAt IsPlain (s ∷ rest)) name fs (AllAt-IsPlain IsPlain (s ∷ rest) null tt) h
inner-IsPlain s rest name (arr xs) h = AllAt-IsPlain IsPlain (s ∷ rest) null tt
inner-IsPlain s rest name (str t) h = AllAt-IsPlain IsPlain (s ∷ rest) null tt
inner-IsPlain s rest name null h = AllAt-IsPlain IsPlain (s ∷ rest) null tt
inner-IsPlain s rest name (bool b) h = AllAt-IsPlain IsPlain (s ∷ rest) null tt
inner-IsPlain s rest name (num n) h = AllAt-IsPlain IsPlain (s ∷ rest) null tt
inner-IsPlain s rest name (minus n) h = AllAt-IsPlain IsPlain (s ∷ rest) null tt

pub leaf-IsPlain :
    (name : String) (cur : Json) → AllAt IsPlain (key name ∷ []) cur → IsPlain (get_in name cur)
leaf-IsPlain name (obj fs) h = key_get_in IsPlain name fs tt h
leaf-IsPlain name (arr xs) h = tt
leaf-IsPlain name (str t) h = tt
leaf-IsPlain name null h = tt
leaf-IsPlain name (bool b) h = tt
leaf-IsPlain name (num n) h = tt
leaf-IsPlain name (minus n) h = tt
