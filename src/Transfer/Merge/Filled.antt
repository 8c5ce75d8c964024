-- ===== src/Transfer/Merge/Filled.antt =====
-- What a merge leaves at the secret paths: a value of the import, one of the current configuration, or
-- nothing, and never the sentinel.
use netbox_monitor.Prelude.{ℕ, ◌+◌, String, refl, List, [], ◌∷◌, All}
use netbox_monitor.Json.{Json, Items, Fields, arr, obj, no_items, item, no_fields, field}
use netbox_monitor.Transfer.Redact.{Step, key, every, secret_paths}
use netbox_monitor.Transfer.Secret.{AllItems, AllFields, AllAt}
use netbox_monitor.Transfer.Merge.{
  list_key, get_in, each_item, each_field, change_at, merge_at, merge_paths, merge_redacted,
}
use netbox_monitor.Transfer.Merge.Plain.{
  IsReal, IsPlain, counterpart-IsPlain, name-IsPlain, inner-IsPlain, leaf-IsPlain,
}
use netbox_monitor.Transfer.Merge.Keeps.{
  Keeps, fill-IsReal, fill-Keeps, each_item-All, each_field-All, each_field-get, change_at-All,
  change_at-get, change_at-changed,
}

-- A change whose every result has a property.
module _ (Q : Json → Type 0) where
  each_item-everywhere :
      (f : ℕ → Json → Json × List String)
      → ((n : ℕ) (v : Json) → Q (f n v).0)
      → (n : ℕ) (xs : Items) → AllItems Q (each_item f n xs).0
  each_item-everywhere f step n no_items = tt
  each_item-everywhere f step n (item x xs) = (step n x, each_item-everywhere f step (n + 1) xs)

  each_field-everywhere :
      (f : String → Json → Json × List String)
      → ((k : String) (v : Json) → Q (f k v).0)
      → (fs : Fields) → AllFields Q (each_field f fs).0
  each_field-everywhere f step no_fields = tt
  each_field-everywhere f step (field k v fs) = (step k v, each_field-everywhere f step fs)

-- Changes that keep what is real, inside a list and inside a dictionary.
module _ (f : ℕ → Json → Json × List String) (k : (n : ℕ) → Keeps (λ v. (f n v).0)) where
  each_item-at :
      (p : List Step) (xs : Items)
      → AllAt IsReal p (arr xs)
      → AllAt IsReal p (arr (each_item f 0 xs).0)
  each_item-at [] xs h = tt
  each_item-at (every ∷ rest) xs h =
      each_item-All (AllAt IsReal rest) (AllAt IsReal rest) f (λ n. (k n).at rest) 0 xs h
  each_item-at (key j ∷ []) xs h = tt
  each_item-at (key j ∷ s ∷ rest) xs h = tt

module _ (f : String → Json → Json × List String) (k : (n : String) → Keeps (λ v. (f n v).0)) where
  each_field-at :
      (p : List Step) (fs : Fields)
      → AllAt IsReal p (obj fs)
      → AllAt IsReal p (obj (each_field f fs).0)
  each_field-at [] fs h = tt
  each_field-at (every ∷ rest) fs h =
      each_field-All (AllAt IsReal rest) (AllAt IsReal rest) f (λ n. (k n).at rest) fs h
  each_field-at (key j ∷ []) fs h = each_field-get IsReal IsReal f (λ n. (k n).leaf) j fs h
  each_field-at (key j ∷ s ∷ rest) fs h =
      each_field-get (AllAt IsReal (s ∷ rest)) (AllAt IsReal (s ∷ rest)) f
        (λ n. (k n).at (s ∷ rest)) j fs h

module _ (i : String) (f : Json → Json × List String) (k : Keeps (λ v. (f v).0)) where
  change_at-at :
      (p : List Step) (fs : Fields)
      → AllAt IsReal p (obj fs)
      → AllAt IsReal p (obj (change_at i f fs).0)
  change_at-at [] fs h = tt
  change_at-at (every ∷ rest) fs h = change_at-All i f (AllAt IsReal rest) fs (k.at rest) h
  change_at-at (key j ∷ []) fs h = change_at-get i f IsReal j fs k.leaf h
  change_at-at (key j ∷ s ∷ rest) fs h =
      change_at-get i f (AllAt IsReal (s ∷ rest)) j fs (k.at (s ∷ rest)) h

module _ (show : Json → String) where
  merge_at-leaf :
      (q prefix : List Step) (trail : String) (cur v : Json)
      → IsReal v
      → IsReal (merge_at show q prefix trail v cur).0
  unfolding merge_at
  merge_at-leaf [] prefix trail cur v h = h
  merge_at-leaf (every ∷ q) prefix trail cur (arr xs) h = refl
  merge_at-leaf (every ∷ q) prefix trail cur (obj fs) h = refl
  merge_at-leaf (key k ∷ []) prefix trail cur (obj fs) h = refl
  merge_at-leaf (key k ∷ s ∷ q) prefix trail cur (obj fs) h = refl
  merge_at-leaf (every ∷ q) prefix trail cur v h = h
  merge_at-leaf (key k ∷ []) prefix trail cur v h = h
  merge_at-leaf (key k ∷ s ∷ q) prefix trail cur v h = h

  -- the merge along one path, where the secrets on that path of the current document are plain
  merge_at-at :
      (q prefix : List Step) (trail : String) (cur : Json)
      → AllAt IsPlain q cur
      → (p : List Step) (v : Json) → AllAt IsReal p v
      → AllAt IsReal p (merge_at show q prefix trail v cur).0
  unfolding merge_at
  merge_at-at [] prefix trail cur plain p v h = h
  merge_at-at (every ∷ q) prefix trail cur plain p (arr xs) h =
      each_item-at _
        (λ n. record {
          at = λ r w. merge_at-at q _ _ _ (counterpart-IsPlain q w cur (list_key prefix) plain) r w;
          leaf = λ w. merge_at-leaf q _ _ _ w;
        })
        p xs h
  merge_at-at (every ∷ q) prefix trail cur plain p (obj fs) h =
      each_field-at _
        (λ n. record {
          at = λ r w. merge_at-at q _ _ _ (name-IsPlain q n cur plain) r w;
          leaf = λ w. merge_at-leaf q _ _ _ w;
        })
        p fs h
  merge_at-at (key k ∷ []) prefix trail cur plain p (obj fs) h =
      change_at-at k _ (fill-Keeps _ (get_in k cur) (leaf-IsPlain k cur plain)) p fs h
  merge_at-at (key k ∷ s ∷ q) prefix trail cur plain p (obj fs) h =
      change_at-at k _
        (record {
          at = λ r w. merge_at-at (s ∷ q) _ _ _ (inner-IsPlain s q k cur plain) r w;
          leaf = λ w. merge_at-leaf (s ∷ q) _ _ _ w;
        })
        p fs h
  merge_at-at (every ∷ q) prefix trail cur plain p v h = h
  merge_at-at (key k ∷ []) prefix trail cur plain p v h = h
  merge_at-at (key k ∷ s ∷ q) prefix trail cur plain p v h = h

  -- on its own path it leaves no sentinel
  merge_at-IsReal :
      (q prefix : List Step) (trail : String) (v cur : Json)
      → AllAt IsPlain q cur
      → AllAt IsReal q (merge_at show q prefix trail v cur).0
  unfolding merge_at
  merge_at-IsReal [] prefix trail v cur plain = tt
  merge_at-IsReal (every ∷ q) prefix trail (arr xs) cur plain =
      each_item-everywhere (AllAt IsReal q) _
        (λ n w. merge_at-IsReal q _ _ w _ (counterpart-IsPlain q w cur (list_key prefix) plain)) 0
        xs
  merge_at-IsReal (every ∷ q) prefix trail (obj fs) cur plain =
      each_field-everywhere (AllAt IsReal q) _
        (λ n w. merge_at-IsReal q _ _ w _ (name-IsPlain q n cur plain)) fs
  merge_at-IsReal (key k ∷ []) prefix trail (obj fs) cur plain =
      change_at-changed k _ IsReal fs
        (λ w. fill-IsReal _ (get_in k cur) w (leaf-IsPlain k cur plain))
  merge_at-IsReal (key k ∷ s ∷ q) prefix trail (obj fs) cur plain =
      change_at-changed k _ (AllAt IsReal (s ∷ q)) fs
        (λ w. merge_at-IsReal (s ∷ q) _ _ w _ (inner-IsPlain s q k cur plain))
  merge_at-IsReal (every ∷ q) prefix trail v cur plain = tt
  merge_at-IsReal (key k ∷ []) prefix trail v cur plain = tt
  merge_at-IsReal (key k ∷ s ∷ q) prefix trail v cur plain = tt

  merge_paths-at :
      (ps : List (List Step)) (cur : Json)
      → All (λ q. AllAt IsPlain q cur) ps
      → (p : List Step) (inc : Json) → AllAt IsReal p inc
      → AllAt IsReal p (merge_paths show ps inc cur).0
  unfolding merge_paths
  merge_paths-at [] cur plain p inc h = h
  merge_paths-at (q ∷ ps) cur plain p inc h =
      merge_paths-at ps cur plain.1 p _ (merge_at-at q [] "" cur plain.0 p inc h)

  merge_paths-IsReal :
      (ps : List (List Step)) (inc cur : Json)
      → All (λ q. AllAt IsPlain q cur) ps
      → All (λ p. AllAt IsReal p (merge_paths show ps inc cur).0) ps
  unfolding merge_paths
  merge_paths-IsReal [] inc cur plain = tt
  merge_paths-IsReal (p ∷ ps) inc cur plain = (
    merge_paths-at ps cur plain.1 p _ (merge_at-IsReal p [] "" inc cur plain.0),
    merge_paths-IsReal ps _ cur plain.1,
  )

-- Whatever is imported, no secret path of the merged configuration leads to the sentinel, where the
-- secrets of the current configuration are plain values other than the sentinel.
pub merge_redacted-IsReal :
    (show : Json → String) (inc cur : Json)
    → All (λ p. AllAt IsPlain p cur) secret_paths
    → All (λ p. AllAt IsReal p (merge_redacted show inc cur).0) secret_paths
unfolding merge_redacted
merge_redacted-IsReal show inc cur plain = merge_paths-IsReal show secret_paths inc cur plain
