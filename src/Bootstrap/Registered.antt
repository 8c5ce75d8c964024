-- ===== src/Bootstrap/Registered.antt =====
-- After the bootstrap every tag of the service has an id, so that `tag_ids` does not raise.
use netbox_monitor.Prelude.{
  ℕ, String, ◌≡◌, refl, Bool, true, List, [], ◌∷◌, All, All-map, is_some, lookup, lookup-insert,
  arith, ◌==◌, if◌then◌else◌, maybe, Option-cases, inl, inr,
}
use text.Mathlib.TextPositions.{eq_refl}
use netbox_monitor.Effects.{pure, for_each, ◌>>=◌}
use netbox_monitor.Wire.Request.{answered}
use netbox_monitor.Effects.Run.{Environment, run}
use netbox_monitor.Effects.Ensures.{
  Ensures, ensures_pure, Ensures-run, Ensures-then, Ensures-bind, Ensures-for_each,
}
use netbox_monitor.Netbox.{Client, tag_ids}
use netbox_monitor.Bootstrap.{
  TagSpec, all_tags, register_tag, ensure_tag, ensure_role, source_tag_spec, bootstrap,
}

abbrev pub has_tag : Client → String → Bool
has_tag c s = is_some (lookup s c.tag_table)

abbrev pub AllRegistered : List String → Client → Type 0
AllRegistered slugs c = All (λ s. has_tag c s ≡ true) slugs

has_tag-register_tag :
    (s t : String) (i : ℕ) (c : Client)
    → has_tag (register_tag t i c) s ≡ (if t == s then true else has_tag c s)
has_tag-register_tag s t i c = ground (arith, lookup-insert t s i c.tag_table)

stays :
    (s t : String) (i : ℕ) (c : Client) → has_tag c s ≡ true → has_tag (register_tag t i c) s ≡ true
stays s t i c h = ground (arith, has_tag-register_tag s t i c, h)

-- one more tag, and those before
ensure_tag-AllRegistered :
    (t : TagSpec) (slugs : List String) (c : Client)
    → AllRegistered slugs c
    → Ensures (AllRegistered (t.slug ∷ slugs)) (ensure_tag t c)
unfolding ensure_tag
ensure_tag-AllRegistered t slugs c h = Ensures-then _ _ λ obj.
    let i = maybe obj 0 (λ o. o.id) in
    ensures_pure _ (
      ground (arith, has_tag-register_tag t.slug t.slug i c, eq_refl t.slug),
      All-map slugs (λ s. stays s t.slug i c) h,
    )

-- the slugs that are registered after a list of tags, the last first
abbrev after : List TagSpec → List String → List String
after [] slugs = slugs
after (t ∷ ts) slugs = after ts (t.slug ∷ slugs)

tags-AllRegistered :
    (ts : List TagSpec) (slugs : List String) (c : Client)
    → AllRegistered slugs c
    → Ensures (AllRegistered (after ts slugs)) (for_each ts c ensure_tag)
unfolding for_each
tags-AllRegistered [] slugs c h = ensures_pure c h
tags-AllRegistered (t ∷ ts) slugs c h =
    Ensures-bind {Q = AllRegistered (t.slug ∷ slugs)} _ _ (ensure_tag-AllRegistered t slugs c h)
      λ d hd. tags-AllRegistered ts (t.slug ∷ slugs) d hd

ensure_role-AllRegistered :
    (slugs : List String) (r : TagSpec) (c : Client)
    → AllRegistered slugs c
    → Ensures (AllRegistered slugs) (ensure_role r c)
unfolding ensure_role
ensure_role-AllRegistered slugs r c h = Ensures-then _ _ λ role. ensures_pure _ h

-- the tags of the service, and the tag of the seed switches
abbrev pub registered_slugs : String → List String
registered_slugs source_tag = (source_tag_spec source_tag).slug ∷ after all_tags []

bootstrap-Ensures :
    (source_tag : String) (c : Client)
    → Ensures (AllRegistered (registered_slugs source_tag)) (bootstrap source_tag c)
unfolding bootstrap
bootstrap-Ensures source_tag c =
    Ensures-bind {Q = AllRegistered (after all_tags [])} _ _ (tags-AllRegistered all_tags [] c tt)
      λ d hd.
        Ensures-bind {Q = AllRegistered (registered_slugs source_tag)} _ _
          (ensure_tag-AllRegistered (source_tag_spec source_tag) (after all_tags []) d hd)
          λ e he.
            Ensures-then _ _ λ _.
              Ensures-for_each _ e _ he (ensure_role-AllRegistered (registered_slugs source_tag))

-- A list of registered tags has its ids.
tag_ids-AllRegistered :
    (c : Client) (slugs : List String)
    → AllRegistered slugs c
    → (ids : List ℕ) × (tag_ids c slugs ≡ pure ids)
unfolding tag_ids ◌>>=◌
tag_ids-AllRegistered c [] h = ([], refl)
tag_ids-AllRegistered c (s ∷ slugs) h = elim (Option-cases (lookup s c.tag_table)) [
  | inl p ↦ absurd ground (arith, h.0, p)
  | inr (i, p) ↦ let (ids, eq) = tag_ids-AllRegistered c slugs h.1 in (i ∷ ids, rw p (rw eq refl))
]

-- When the bootstrap ends without an exception, whatever NetBox answers on the way, the client that
-- it leaves has an id for each of the eight tags of the service and for the tag of the seed switches:
-- `tag_ids` of them all gives ids and does not raise. This includes a dry run.
pub bootstrap-tag_ids :
    {S : Type 0} (source_tag : String) (c d : Client) (env : Environment S) (s : S)
    → (run env (bootstrap source_tag c) s).result ≡ answered d
    → (ids : List ℕ) × (tag_ids d (registered_slugs source_tag) ≡ pure ids)
bootstrap-tag_ids source_tag c d env s eq =
    tag_ids-AllRegistered d (registered_slugs source_tag)
      (rw eq at (Ensures-run env _ s (bootstrap-Ensures source_tag c)))
