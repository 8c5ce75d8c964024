-- ===== src/Transfer/Merge/Keeps.antt =====
-- The steps of a merge leave a value that is not the sentinel where there is one, at every path.
use netbox_monitor.Prelude.{
  ℕ, ◌+◌, String, ◌≡◌, refl, some, List, ◌==◌, arith, Bool-cases, inl, inr,
}
use netbox_monitor.Json.{Json, Items, Fields, str, no_items, item, no_fields, field, get, is_true}
use netbox_monitor.Transfer.Redact.{Step}
use netbox_monitor.Transfer.Secret.{AllItems, AllFields, AllAt}
use netbox_monitor.Transfer.Merge.{is_redacted, each_item, each_field, change_at, fill}
use netbox_monitor.Transfer.Merge.Plain.{IsReal, IsPlain, IsPlain-IsReal, AllAt-IsPlain}

pub record Keeps (f : Json → Json) : Type 0 where
  pub at : (p : List Step) (v : Json) → AllAt IsReal p v → AllAt IsReal p (f v)
  pub leaf : (v : Json) → IsReal v → IsReal (f v)

-- what is filled in is plain, and so has nothing below
pub fill-IsReal : (label : String) (cur v : Json) → IsPlain cur → IsReal (fill label cur v).0
unfolding fill
fill-IsReal label cur v h = elim (Bool-cases (is_redacted v)) [
  | inr real ↦ rw real real
  | inl hole ↦
      rw hole (elim (Bool-cases (is_true cur)) [
        | inl t ↦ rw t (IsPlain-IsReal cur h)
        | inr f ↦ rw f refl
      ])
]

pub fill-Keeps : (label : String) (cur : Json) → IsPlain cur → Keeps (λ v. (fill label cur v).0)
unfolding fill
fill-Keeps label cur h = record {
  at = λ p v old. elim (Bool-cases (is_redacted v)) [
    | inr real ↦ rw real old
    | inl hole ↦ rw hole (elim (Bool-cases (is_true cur)) [
      | inl t ↦ rw t (AllAt-IsPlain IsReal p cur h)
      | inr f ↦ rw f (AllAt-IsPlain IsReal p (str "") refl)
    ])
  ];
  leaf = λ v old. fill-IsReal label cur v h;
}

-- the elements of a list
module _ (P Q : Json → Type 0) (f : ℕ → Json → Json × List String)
    (step : (n : ℕ) (v : Json) → P v → Q (f n v).0) where
  pub each_item-All : (n : ℕ) (xs : Items) → AllItems P xs → AllItems Q (each_item f n xs).0
  each_item-All n no_items h = tt
  each_item-All n (item x xs) h = (step n x h.0, each_item-All (n + 1) xs h.1)

-- the values of a dictionary
module _ (P Q : Json → Type 0) (f : String → Json → Json × List String)
    (step : (k : String) (v : Json) → P v → Q (f k v).0) where
  pub each_field-All : (fs : Fields) → AllFields P fs → AllFields Q (each_field f fs).0
  each_field-All no_fields h = tt
  each_field-All (field k v fs) h = (step k v h.0, each_field-All fs h.1)

  pub each_field-get :
      (j : String) (fs : Fields)
      → ((v : Json) → get j fs ≡ some v → P v)
      → (v : Json) → get j (each_field f fs).0 ≡ some v
      → Q v
  unfolding get
  each_field-get j no_fields h v e = absurd (ground (arith, e))
  each_field-get j (field k w fs) h v e = elim (Bool-cases (k == j)) [
    | inl same ↦
        let eq : (f k w).0 ≡ v = ground (arith, e, same) in
        rw (← eq) (step k w (h w (rw same refl)))
    | inr other ↦ each_field-get j fs (λ u p. h u (rw other p)) v (ground (arith, e, other))
  ]

-- the value at one key of a dictionary
module _ (i : String) (f : Json → Json × List String) where
  pub change_at-All :
      (P : Json → Type 0) (fs : Fields)
      → ((v : Json) → P v → P (f v).0)
      → AllFields P fs
      → AllFields P (change_at i f fs).0
  unfolding change_at
  change_at-All P no_fields step h = tt
  change_at-All P (field k v fs) step h = elim (Bool-cases (k == i)) [
    | inl same ↦ rw same (step v h.0, h.1)
    | inr other ↦ rw other (h.0, change_at-All P fs step h.1)
  ]

  pub change_at-get :
      (P : Json → Type 0) (j : String) (fs : Fields)
      → ((v : Json) → P v → P (f v).0)
      → ((v : Json) → get j fs ≡ some v → P v)
      → (v : Json) → get j (change_at i f fs).0 ≡ some v
      → P v
  unfolding get change_at
  change_at-get P j no_fields step h v e = absurd (ground (arith, e))
  change_at-get P j (field k w fs) step h v e = elim (Bool-cases (k == i)) [
    | inl same ↦ elim (Bool-cases (k == j)) [
      | inl here ↦
          let eq : (f w).0 ≡ v = ground (arith, e, same, here) in
          rw (← eq) (step w (h w (rw here refl)))
      | inr there ↦ h v (rw there (ground (arith, e, same, there)))
    ]
    | inr other ↦ elim (Bool-cases (k == j)) [
      | inl here ↦ h v (rw here (ground (arith, e, other, here)))
      | inr there ↦
          change_at-get P j fs step (λ u p. h u (rw there p)) v (ground (arith, e, other, there))
    ]
  ]

  -- every value at the key is the result of the change
  pub change_at-changed :
      (P : Json → Type 0) (fs : Fields)
      → ((v : Json) → P (f v).0)
      → (v : Json) → get i (change_at i f fs).0 ≡ some v
      → P v
  unfolding get change_at
  change_at-changed P no_fields step v e = absurd (ground (arith, e))
  change_at-changed P (field k w fs) step v e = elim (Bool-cases (k == i)) [
    | inl same ↦ let eq : (f w).0 ≡ v = ground (arith, e, same) in rw (← eq) (step w)
    | inr other ↦ change_at-changed P fs step v (ground (arith, e, other))
  ]
