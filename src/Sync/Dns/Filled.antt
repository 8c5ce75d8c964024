-- ===== src/Sync/Dns/Filled.antt =====
-- Every name in the tables of the DNS collection is that of a record, sanitized, and not empty.
use mathlib.Core.Path.{subst}
use netbox_monitor.Prelude.{
  ◌≡◌, refl, String, true, Option, none, some, List, [], ◌∷◌, All, Dict, lookup, insert, truthy,
  non_empty, arith, if-holds, maybe-holds, some-injective, Bool-cases, Option-cases, inl, inr, ◌∙◌,
  ◌||◌, ◌==◌, is_some,
}
use netbox_monitor.Wire.Dns.{Zone, ZoneRecord}
use netbox_monitor.Effects.{pure}
use netbox_monitor.Effects.Ensures.{
  Ensures, ensures_pure, Ensures-if, Ensures-maybe, Ensures-then, Ensures-bind, Ensures-for_each,
  Ensures-try_catch,
}
use netbox_monitor.Net.Names.{sanitize_dns_name}
use netbox_monitor.Sync.Dns.Names.{Numerals}
use netbox_monitor.Sync.Dns.Reconcile.{desired_name}
use netbox_monitor.Sync.Dns.Collect.{
  Setup, DnsSite, Tables, is_type, note_first, note_forward, note_ptr, note_record, note_records,
  is_collected, read_zone, note_zone, collect_zone, collect_site, dns_site, collect_sites,
}

abbrev pub IsName : String → Type 0
IsName n = (non_empty n ≡ true) × (raw : Option String) × (sanitize_dns_name raw ≡ n)

abbrev pub Names : Dict String → Type 0
Names d = All (λ (ip, n). IsName n) d

pub record IsFilled (t : Tables) : Type 0 where
  pub forward_names : Names t.forward
  pub ptr_names : Names t.ptr

insert-Names : (k n : String) (d : Dict String) → IsName n → Names d → Names (insert k n d)
unfolding insert
insert-Names k n [] h hs = (h, tt)
insert-Names k n ((j, w) ∷ d) h hs =
    if-holds Names (j == k) _ _ (λ _. (h, hs.1)) (λ _. (hs.0, insert-Names k n d h hs.1))

note_first-Names : (k n : String) (d : Dict String) → IsName n → Names d → Names (note_first k n d)
unfolding note_first
note_first-Names k n d h hs =
    if-holds Names (is_some (lookup k d)) _ _ (λ _. hs) (λ _. insert-Names k n d h hs)

note_forward-IsFilled : (r : ZoneRecord) (t : Tables) → IsFilled t → IsFilled (note_forward r t)
unfolding note_forward
note_forward-IsFilled r t h = maybe-holds IsFilled (truthy r.ip_address) t _ h (λ ip.
    if-holds IsFilled (non_empty (sanitize_dns_name r.name)) _ _
      (λ full. record {
        forward_names = note_first-Names ip _ t.forward (full, r.name, refl) h.forward_names;
        ptr_names = h.ptr_names;
      })
      (λ _. h))

note_ptr-IsFilled :
    (num : Numerals) (r : ZoneRecord) (t : Tables) → IsFilled t → IsFilled (note_ptr num r t)
unfolding note_ptr
note_ptr-IsFilled num r t h = maybe-holds IsFilled _ t _ h (λ ip.
    if-holds IsFilled (non_empty (sanitize_dns_name r.ptr_name)) _ _
      (λ full. record {
        forward_names = h.forward_names;
        ptr_names = note_first-Names ip _ t.ptr (full, r.ptr_name, refl) h.ptr_names;
      })
      (λ _. h))

note_record-IsFilled :
    (num : Numerals) (r : ZoneRecord) (t : Tables) → IsFilled t → IsFilled (note_record num r t)
unfolding note_record
note_record-IsFilled num r t h =
    if-holds IsFilled (is_type r.type "A" || is_type r.type "AAAA") (note_forward r t) _
      (λ _. note_forward-IsFilled r t h)
      (λ _.
        if-holds IsFilled (is_type r.type "PTR") (note_ptr num r t) t
          (λ _. note_ptr-IsFilled num r t h) (λ _. h))

note_records-IsFilled :
    (num : Numerals) (rs : List ZoneRecord) (t : Tables)
    → IsFilled t
    → IsFilled (note_records num rs t)
unfolding note_records
note_records-IsFilled num [] t h = h
note_records-IsFilled num (r ∷ rs) t h =
    note_records-IsFilled num rs (note_record num r t) (note_record-IsFilled num r t h)

module _ (ctx : Setup) where
  note_zone-IsFilled :
      (site : DnsSite) (zone : Zone) (t : Tables)
      → IsFilled t
      → Ensures IsFilled (note_zone ctx site zone t)
  unfolding note_zone
  note_zone-IsFilled site zone t h = Ensures-then (read_zone ctx site zone) _ (λ records.
      Ensures-maybe records _ _ (ensures_pure t h)
        (λ rs. ensures_pure _ (note_records-IsFilled ctx.numerals rs t h)))

  collect_zone-IsFilled :
      (site : DnsSite) (zone : Zone) (t : Tables)
      → IsFilled t
      → Ensures IsFilled (collect_zone ctx site zone t)
  unfolding collect_zone
  collect_zone-IsFilled site zone t h =
      Ensures-if (is_collected ctx.zones_exclude zone) (note_zone ctx site zone t) (pure t)
        (λ _. note_zone-IsFilled site zone t h) (λ _. ensures_pure t h)

  collect_site-IsFilled :
      (site : DnsSite) (t : Tables) → IsFilled t → Ensures IsFilled (collect_site ctx site t)
  unfolding collect_site
  collect_site-IsFilled site t h = Ensures-then _ _ (λ zones.
      Ensures-for_each {Q = IsFilled} zones _ _
        (record { forward_names = h.forward_names; ptr_names = h.ptr_names })
        (λ zone u hu. collect_zone-IsFilled site zone u hu))

  dns_site-IsFilled :
      (site : DnsSite) (t : Tables) → IsFilled t → Ensures IsFilled (dns_site ctx site t)
  unfolding dns_site
  dns_site-IsFilled site t h = Ensures-then _ _ (λ started.
      Ensures-bind {Q = λ c. IsFilled c.0} _ _
        (Ensures-try_catch _ _
          (Ensures-bind {Q = IsFilled} _ _ (collect_site-IsFilled site t h)
            (λ u hu. ensures_pure (u, none) hu))
          (λ e. ensures_pure _ h))
        (λ c hc.
          Ensures-maybe c.1 _ _ (Ensures-then _ _ (λ _. ensures_pure c.0 hc))
            (λ message. Ensures-then _ _ (λ _. ensures_pure c.0 hc))))

  pub collect_sites-IsFilled : (sites : List DnsSite) → Ensures IsFilled (collect_sites ctx sites)
  unfolding collect_sites
  collect_sites-IsFilled sites =
      Ensures-for_each sites _ _ (record { forward_names = tt; ptr_names = tt })
        (λ site u hu. dns_site-IsFilled site u hu)

lookup-IsName : (k n : String) (d : Dict String) → Names d → lookup k d ≡ some n → IsName n
unfolding lookup
lookup-IsName k n [] hs h = absurd (ground (arith, h))
lookup-IsName k n ((j, w) ∷ d) hs h = elim (Bool-cases (j == k)) [
  | inl p ↦ subst IsName (some-injective (rw p at h)) hs.0
  | inr p ↦ lookup-IsName k n d hs.1 (rw p at h)
]

truthy-some : (o : Option String) (n : String) → truthy o ≡ some n → o ≡ some n
truthy-some none n h = absurd (ground (arith, h))
truthy-some (some t) n h = ground (arith, h)

-- A name that the reconciliation writes is one of the tables.
pub desired_name-IsName :
    (forward ptr : Dict String) (host n : String)
    → Names forward
    → Names ptr
    → desired_name forward ptr host ≡ some n
    → IsName n
desired_name-IsName forward ptr host n hf hp h =
    elim (Option-cases (truthy (lookup host forward))) [
      | inl p ↦ lookup-IsName host n ptr hp (truthy-some _ n (rw p at h))
      | inr (m, p) ↦ lookup-IsName host n forward hf (truthy-some _ n (p ∙ (rw p at h)))
    ]
