-- ===== src/Sync/Cleanup/Counts.antt =====
-- The counts that `delete_managed` returns.
use netbox_monitor.Prelude.{
  ℕ, ◌+◌, String, ◌≡◌, refl, Bool, true, false, not, ◌||◌, Option, List, [], ◌∷◌, Dict, lookup,
  lookup-insert, length, mem, mem_num, arith, ◌==◌, if◌then◌else◌,
}
use netbox_monitor.Wire.Object.{Obj}
use netbox_monitor.Effects.{Prog, pure, ◌>>=◌, for_each}
use netbox_monitor.Effects.Run.{Environment, run}
use netbox_monitor.Effects.Ensures.{
  ensures_rules, Ensures, Holds, ensures_pure, Ensures-run, Ensures-if, Ensures-bind, Ensures-then,
  Ensures-for_each,
}
use netbox_monitor.Netbox.{Client, managed_tag_slug, obj_tag_slugs}
use netbox_monitor.Sync.Cleanup.{
  Selection, Progress, count_of, bump_count, delete_ip, delete_parent_ips, delete_counted,
  delete_parent, delete_remaining_ip, delete_cable, delete_managed,
}

abbrev pub Distinct : List ℕ → Type 0
Distinct [] = Unit
Distinct (n ∷ ns) = (mem_num n ns ≡ false) × Distinct ns

-- Each IP is counted once, and the count of IPs is the number of ids that were deleted.
pub record IsConsistent (p : Progress) : Type 0 where
  pub counted : count_of "ip_addresses" p.counts ≡ length p.deleted_ip_ids
  pub distinct : Distinct p.deleted_ip_ids

count_of-bump_count :
    (t u : String) (d : Dict ℕ)
    → count_of u (bump_count t d) ≡ (if t == u then count_of t d + 1 else count_of u d)
unfolding bump_count
count_of-bump_count t u d = ground (arith, lookup-insert t u (count_of t d + 1) d)

module _ (timestamp : String → Option ℕ) (c : Client) (sel : Selection) where
  counted_ip :
      (o : Obj) (p : Progress)
      → (mem_num o.id p.deleted_ip_ids || not (mem managed_tag_slug (obj_tag_slugs o))) ≡ false
      → IsConsistent p
      → (done : Bool)
      → Ensures IsConsistent (
          pure (
            if done
            then record {
              deleted_ip_ids = o.id ∷ p.deleted_ip_ids;
              counts = bump_count "ip_addresses" p.counts;
            }
            else p))
  counted_ip o p fresh h false = ensures_pure p h
  counted_ip o p fresh h true = ensures_pure _ (record {
    counted = ground (arith, count_of-bump_count "ip_addresses" "ip_addresses" p.counts, h.counted);
    distinct = (ground arith, h.distinct);
  })

  delete_ip-IsConsistent :
      (o : Obj) (p : Progress)
      → IsConsistent p
      → Ensures IsConsistent (delete_ip timestamp c sel o p)
  unfolding delete_ip
  delete_ip-IsConsistent o p h = search (ensures_rules, ensures_pure, counted_ip)

  counted_other :
      (t : String) (p : Progress)
      → (t == "ip_addresses") ≡ false
      → IsConsistent p
      → (done : Bool)
      → Ensures IsConsistent
          (pure (if done then record p { counts = bump_count t p.counts } else p))
  counted_other t p other h false = ensures_pure p h
  counted_other t p other h true = ensures_pure _ (record {
    counted = rw (count_of-bump_count t "ip_addresses" p.counts, other) h.counted;
    distinct = h.distinct;
  })

  delete_counted-IsConsistent :
      (t : String) (o : Obj) (p : Progress)
      → (t == "ip_addresses") ≡ false
      → IsConsistent p
      → Ensures IsConsistent (delete_counted timestamp c sel t o p)
  unfolding delete_counted
  delete_counted-IsConsistent t o p other h = search (ensures_rules, counted_other)

  delete_parent_ips-IsConsistent :
      (i : ℕ) (k : String) (p : Progress)
      → IsConsistent p
      → Ensures IsConsistent (delete_parent_ips timestamp c sel i k p)
  unfolding delete_parent_ips
  delete_parent_ips-IsConsistent i k p h =
      search (ensures_rules, Ensures-for_each, delete_ip-IsConsistent)

  delete_parent-IsConsistent :
      (t k : String) (f : Obj → String) (now : ℕ)
      → (t == "ip_addresses") ≡ false
      → (o : Obj) (p : Progress) → IsConsistent p
      → Ensures IsConsistent (delete_parent timestamp c sel t k f now o p)
  unfolding delete_parent
  delete_parent-IsConsistent t k f now other o p h = search (
    Ensures-if,
    Ensures-bind {Q = IsConsistent},
    ensures_pure,
    delete_parent_ips-IsConsistent,
    delete_counted-IsConsistent,
  )

  delete_remaining_ip-IsConsistent :
      (now : ℕ) (o : Obj) (p : Progress)
      → IsConsistent p
      → Ensures IsConsistent (delete_remaining_ip timestamp c sel now o p)
  unfolding delete_remaining_ip
  delete_remaining_ip-IsConsistent now o p h =
      search (ensures_rules, ensures_pure, delete_ip-IsConsistent)

  delete_cable-IsConsistent :
      (now : ℕ) (o : Obj) (p : Progress)
      → IsConsistent p
      → Ensures IsConsistent (delete_cable timestamp c sel now o p)
  unfolding delete_cable
  delete_cable-IsConsistent now o p h =
      let other : ("cables" == "ip_addresses") ≡ false = refl in
      search (ensures_rules, ensures_pure, delete_counted-IsConsistent)

  pass-IsConsistent :
      (wanted : Bool) (objects : Prog (List Obj)) (body : Obj → Progress → Prog Progress)
      (p : Progress)
      → ((o : Obj) (q : Progress) → IsConsistent q → Ensures IsConsistent (body o q))
      → IsConsistent p
      → Ensures IsConsistent (if wanted then (objects >>= λ objs. for_each objs p body) else pure p)
  pass-IsConsistent wanted objects body p step h =
      Ensures-if wanted _ _
        (λ _. Ensures-then objects _ (λ objs. Ensures-for_each objs p body h step))
        (λ _. ensures_pure p h)

  delete_managed-Ensures : Ensures IsConsistent (delete_managed timestamp c sel)
  unfolding delete_managed lookup
  delete_managed-Ensures = Ensures-then _ _ λ now.
      Ensures-bind {Q = IsConsistent} _ _
        (pass-IsConsistent _ _ _ _ (delete_parent-IsConsistent "devices" _ _ now refl)
          (record { counted = refl; distinct = tt }))
        λ p hp.
          Ensures-bind {Q = IsConsistent} _ _
            (pass-IsConsistent _ _ _ p (delete_parent-IsConsistent "virtual_machines" _ _ now refl)
              hp)
            λ q hq.
              Ensures-bind {Q = IsConsistent} _ _
                (pass-IsConsistent _ _ _ q (delete_remaining_ip-IsConsistent now) hq)
                λ r hr. pass-IsConsistent _ _ _ r (delete_cable-IsConsistent now) hr

module _ {S : Type 0} (timestamp : String → Option ℕ) (c : Client) (sel : Selection) where
  -- Whatever NetBox answers, the progress that `delete_managed` returns lists no IP twice, and its
  -- count of IP addresses is the number of ids listed.
  pub delete_managed-IsConsistent :
      (env : Environment S) (s : S)
      → Holds IsConsistent (run env (delete_managed timestamp c sel) s).result
  delete_managed-IsConsistent env s = Ensures-run env _ s (delete_managed-Ensures timestamp c sel)
