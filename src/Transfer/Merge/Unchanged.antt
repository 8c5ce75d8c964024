-- ===== src/Transfer/Merge/Unchanged.antt =====
-- A merge changes nothing, and reports nothing, where no secret path leads to the sentinel.
use netbox_monitor.Prelude.{
  ℕ, ◌+◌, String, ◌≡◌, refl, ap, some, List, [], ◌∷◌, All, ◌==◌, Bool-cases, inl, inr,
}
use netbox_monitor.Json.{Json, Items, Fields, arr, obj, no_items, item, no_fields, field, get}
use netbox_monitor.Transfer.Redact.{Step, key, every}
use netbox_monitor.Transfer.Secret.{AllItems, AllFields, AllAt}
use netbox_monitor.Transfer.Merge.{each_item, each_field, change_at, fill, merge_at, merge_paths}
use netbox_monitor.Transfer.Merge.Plain.{IsReal}

fill-unchanged : (label : String) (cur v : Json) → IsReal v → fill label cur v ≡ (v, [])
unfolding fill
fill-unchanged label cur v real = rw real refl

each_item-unchanged :
    (P : Json → Type 0) (f : ℕ → Json → Json × List String) (n : ℕ) (xs : Items)
    → ((n : ℕ) (v : Json) → P v → f n v ≡ (v, []))
    → AllItems P xs
    → each_item f n xs ≡ (xs, [])
each_item-unchanged P f n no_items step h = refl
each_item-unchanged P f n (item x xs) step h =
    rw (step n x h.0) (rw (each_item-unchanged P f (n + 1) xs step h.1) refl)

each_field-unchanged :
    (P : Json → Type 0) (f : String → Json → Json × List String) (fs : Fields)
    → ((k : String) (v : Json) → P v → f k v ≡ (v, []))
    → AllFields P fs
    → each_field f fs ≡ (fs, [])
each_field-unchanged P f no_fields step h = refl
each_field-unchanged P f (field k v fs) step h =
    rw (step k v h.0) (rw (each_field-unchanged P f fs step h.1) refl)

change_at-unchanged :
    (P : Json → Type 0) (k : String) (f : Json → Json × List String) (fs : Fields)
    → ((v : Json) → P v → f v ≡ (v, []))
    → ((v : Json) → get k fs ≡ some v → P v)
    → change_at k f fs ≡ (fs, [])
unfolding change_at get
change_at-unchanged P k f no_fields step h = refl
change_at-unchanged P k f (field j v fs) step h = elim (Bool-cases (j == k)) [
  | inl same ↦ rw same (rw (step v (h v (rw same refl))) refl)
  | inr other ↦ rw other (rw (change_at-unchanged P k f fs step (λ w p. h w (rw other p))) refl)
]

module _ (show : Json → String) where
  merge_at-unchanged :
      (q prefix : List Step) (trail : String) (v cur : Json)
      → AllAt IsReal q v
      → merge_at show q prefix trail v cur ≡ (v, [])
  unfolding merge_at
  merge_at-unchanged [] prefix trail v cur h = refl
  merge_at-unchanged (every ∷ q) prefix trail (arr xs) cur h =
      ap (λ r. (arr r.0, r.1))
        (each_item-unchanged (AllAt IsReal q) _ 0 xs (λ n w. merge_at-unchanged q _ _ w _) h)
  merge_at-unchanged (every ∷ q) prefix trail (obj fs) cur h =
      ap (λ r. (obj r.0, r.1))
        (each_field-unchanged (AllAt IsReal q) _ fs (λ n w. merge_at-unchanged q _ _ w _) h)
  merge_at-unchanged (key k ∷ []) prefix trail (obj fs) cur h =
      ap (λ r. (obj r.0, r.1)) (change_at-unchanged IsReal k _ fs (λ w. fill-unchanged _ _ w) h)
  merge_at-unchanged (key k ∷ s ∷ q) prefix trail (obj fs) cur h =
      ap (λ r. (obj r.0, r.1))
        (change_at-unchanged (AllAt IsReal (s ∷ q)) k _ fs (λ w. merge_at-unchanged (s ∷ q) _ _ w _)
          h)
  merge_at-unchanged (every ∷ q) prefix trail v cur h = refl
  merge_at-unchanged (key k ∷ []) prefix trail v cur h = refl
  merge_at-unchanged (key k ∷ s ∷ q) prefix trail v cur h = refl

  pub merge_paths-unchanged :
      (ps : List (List Step)) (v cur : Json)
      → All (λ p. AllAt IsReal p v) ps
      → merge_paths show ps v cur ≡ (v, [])
  unfolding merge_paths
  merge_paths-unchanged [] v cur h = refl
  merge_paths-unchanged (p ∷ ps) v cur h =
      rw (merge_at-unchanged p [] "" v cur h.0) (rw (merge_paths-unchanged ps v cur h.1) refl)
