-- ===== src/Sync/Availability/Stale.antt =====
-- When a host that does not answer is tagged, and when it is deleted.
use netbox_monitor.Prelude.{
  ℕ, ◌+◌, ◌*◌, ◌≤◌, ◌<◌, String, ◌≡◌, refl, Bool, true, false, not, All, All-append, List, [], ◌∷◌,
  none, some, mem, ltb, arith, ◌=?◌, Dict, lookup, insert, ap, Option, ◌∙◌, if◌then◌else◌,
}
use netbox_monitor.Wire.Object.{Obj}
use netbox_monitor.Wire.Request.{Request}
use netbox_monitor.Effects.Only.{Only, only_pure, Only-if, only_rules}
use netbox_monitor.Effects.Run.{Environment, run, All-trace, run-bind_trace}
use netbox_monitor.Netbox
use netbox_monitor.Netbox.{stale_tag_slug, obj_tag_slugs}
use netbox_monitor.Netbox.Methods.{update-Only, add_tags-Only, journal-Only}
use netbox_monitor.State.{
  Db, sqlite, statement, checked, record_check, get_host, set_stale, forget_host,
}
use netbox_monitor.State.Laws.{seen_at, seen_at-after_check}
use netbox_monitor.Sync.Cleanup.Guard.{IsRead}
use netbox_monitor.Effects.{Prog, pure, ask, ◌>>=◌, for_each}
use netbox_monitor.Wire.Request.{Reply, Answer, answered, HostState}
use netbox_monitor.Sync.Availability.{
  Watch, device_key, handle_result, handle_down, mark_stale, maybe_grace_delete, grace_delete,
  delete_primary,
}

-- A host that was last seen at `seen` is changed only when the threshold has passed and it is not
-- tagged yet, and deleted only when it is tagged and the grace period has passed.
abbrev pub IsDue : Watch → Obj → ℕ → ℕ → Request → Type 0
IsDue w o seen now (Request.create e d) =
    (mem stale_tag_slug (obj_tag_slugs o) ≡ false) × (seen + w.stale_after ≤ now)
IsDue w o seen now (Request.update p d) =
    (mem stale_tag_slug (obj_tag_slugs o) ≡ false) × (seen + w.stale_after ≤ now)
IsDue w o seen now (Request.delete p) =
    (mem stale_tag_slug (obj_tag_slugs o) ≡ true)
    × (0 < w.grace_days)
    × (mem "src-scan" (obj_tag_slugs o) ≡ true)
    × (seen + w.grace_days * 86400 ≤ now)
IsDue w o seen now r = Unit {0}

module _ (w : Watch) (o : Obj) (seen now : ℕ) where
  abbrev P : Request → Type 0
  P = IsDue w o seen now

  -- the writes that tag the host
  mark_stale-IsDue :
      (key : String)
      → mem stale_tag_slug (obj_tag_slugs o) ≡ false
      → seen + w.stale_after ≤ now
      → Only P (mark_stale w o key)
  unfolding mark_stale set_stale
  mark_stale-IsDue key fresh late =
      let tags =
        add_tags-Only w.netbox P (λ _ _ _. (fresh, late)) (λ _ _ _. (fresh, late)) (λ _ _. tt)
          (λ _ _. tt) in
      let change =
        update-Only w.netbox P (λ _ _ _. (fresh, late)) (λ _ _ _. (fresh, late)) (λ _ _. tt)
          (λ _ _. tt) in
      let note =
        journal-Only w.netbox P (λ _ _ _. (fresh, late)) (λ _ _ _. (fresh, late)) (λ _ _. tt)
          (λ _ _. tt) in
      search (only_rules, tags, change, note) depth 8

  delete-IsDue :
      ((p : Obj) → P (Request.delete p)) → (p : Obj) → Only P (Netbox.delete w.netbox p "src-scan")
  unfolding Netbox.delete
  delete-IsDue d p = search (only_rules, d)

  grace_delete-IsDue :
      (key : String) → ((p : Obj) → P (Request.delete p)) → Only P (grace_delete w o key)
  unfolding grace_delete delete_primary forget_host
  grace_delete-IsDue key d = let gone = delete-IsDue d in search (only_rules, tt, gone) depth 10

  maybe_grace_delete-IsDue :
      (key : String)
      → mem stale_tag_slug (obj_tag_slugs o) ≡ true
      → Only P (maybe_grace_delete w o key (some seen) now)
  unfolding maybe_grace_delete
  maybe_grace_delete-IsDue key stale =
      Only-if (w.grace_days =? 0) _ _ (λ _. only_pure tt)
        λ grace.
          Only-if (not (mem "src-scan" (obj_tag_slugs o))) _ _ (λ _. only_pure tt)
            λ scan.
              Only-if (ltb now (seen + w.grace_days * 86400)) _ _ (λ _. only_pure tt)
                λ late.
                  grace_delete-IsDue key (λ p. (stale, ground arith, ground arith, ground arith))

  handle_down-IsDue : (key : String) → 0 < seen → Only P (handle_down w o key (some seen) now)
  unfolding handle_down
  handle_down-IsDue key real =
      let set : (seen =? 0) ≡ false = ground arith in
      Only-if (mem stale_tag_slug (obj_tag_slugs o)) _ _ (maybe_grace_delete-IsDue key) λ fresh.
        rw set (
          Only-if (ltb now (seen + w.stale_after)) _ _ (λ _. only_pure tt)
            (λ late. mark_stale-IsDue key fresh (ground arith)))

module _ {S : Type 0} (env : Environment S) (s : S) where
  -- A failed check at `now` of a host that was last seen at `seen` changes nothing in NetBox unless
  -- the host is not tagged stale and `stale_after` has passed since, and deletes nothing unless the
  -- host is tagged stale, was found by discovery, and a grace period that is set has passed since.
  pub handle_down-trace :
      (w : Watch) (o : Obj) (seen now : ℕ) (key : String)
      → 0 < seen
      → All (IsDue w o seen now) (run env (handle_down w o key (some seen) now) s).trace
  handle_down-trace w o seen now key real =
      All-trace env (IsDue w o seen now) _ s (handle_down-IsDue w o seen now key real)

-- Failed checks of one address, at the given times.
unfoldable pub failed_checks : Watch → Dict Obj → String → List ℕ → Prog (Unit {0})
failed_checks w devices address times =
    for_each times tt (λ now _. handle_result w devices now (address, false))

if-same : {A : Type 0} (b : Bool) (x : A) → (if b then x else x) ≡ x
if-same true x = refl
if-same false x = refl

module _ (other : (r : Request) → Db → Answer (Reply r) × Db) (w : Watch) (o : Obj) where
  no_grace : (key : String) (now : ℕ) → maybe_grace_delete w o key none now ≡ pure tt
  unfolding maybe_grace_delete
  no_grace key now = if-same (w.grace_days =? 0) (pure tt)

  not_seen :
      (now : ℕ) (db : Db)
      → seen_at (device_key w o) db ≡ none
      → (checked (device_key w o) false now (lookup (device_key w o) db.hosts)).last_seen ≡ none
  unfolding checked
  not_seen now db seen = seen

  quiet_run :
      (now : ℕ) (row : Option HostState)
      → (checked (device_key w o) false now row).last_seen ≡ none
      → (db : Db)
      → run
          (sqlite other)
          (maybe_grace_delete w o
            (device_key w o)
            (checked (device_key w o) false now row).last_seen
            now)
          db
        ≡ record { result = answered tt; final = db; trace = [] }
  unfolding run
  quiet_run now row unseen db =
      ap (λ l. run (sqlite other) (maybe_grace_delete w o (device_key w o) l now) db) unseen
      ∙ ap (λ m. run (sqlite other) m db) (no_grace (device_key w o) now)

  still_unseen :
      (now : ℕ) (db : Db)
      → seen_at (device_key w o) db ≡ none
      → seen_at (device_key w o) (record db {
        hosts =
            insert
              (checked (device_key w o) false now (lookup (device_key w o) db.hosts)).key
              (checked (device_key w o) false now (lookup (device_key w o) db.hosts))
              db.hosts;
      })
        ≡ none
  unfolding checked
  still_unseen now db seen = seen_at-after_check other (device_key w o) now false db ∙ seen

  one_check :
      (devices : Dict Obj) (address : String) (now : ℕ) (db : Db)
      → lookup address devices ≡ some o
      → mem stale_tag_slug (obj_tag_slugs o) ≡ true
      → (now =? 0) ≡ false
      → seen_at (device_key w o) db ≡ none
      → ((run (sqlite other) (handle_result w devices now (address, false)) db).result
          ≡ answered tt)
        × All IsRead (run (sqlite other) (handle_result w devices now (address, false)) db).trace
        × (seen_at
              (device_key w o)
              (run (sqlite other) (handle_result w devices now (address, false)) db).final
            ≡ none)
  unfolding run handle_result record_check get_host ask ◌>>=◌ statement handle_down
  one_check devices address now db found stale real seen =
      let q = quiet_run now (lookup (device_key w o) db.hosts) (not_seen now db seen) _ in
      rw (found, real, stale)
        (
          ap (λ r. r.result) q,
          (refl, (refl, rw (ap (λ r. r.trace) q) tt)),
          ap (λ r. seen_at (device_key w o) r.final) q ∙ still_unseen now db seen,
        )

  -- A host that is tagged stale, and of which the database does not say when it answered, is never
  -- deleted or changed in NetBox by failed checks at times after 0, however many there are.
  pub failed_checks-IsRead :
      (devices : Dict Obj) (address : String) (times : List ℕ) (db : Db)
      → lookup address devices ≡ some o
      → mem stale_tag_slug (obj_tag_slugs o) ≡ true
      → All (λ now. (now =? 0) ≡ false) times
      → seen_at (device_key w o) db ≡ none
      → All IsRead (run (sqlite other) (failed_checks w devices address times) db).trace
  unfolding failed_checks for_each run
  failed_checks-IsRead devices address [] db found stale h seen = tt
  failed_checks-IsRead devices address (now ∷ times) db found stale h seen =
      let (returned, reads, unseen) = one_check devices address now db found stale h.0 seen in
      rw
        (run-bind_trace (sqlite other) (handle_result w devices now (address, false)) _ tt db
          returned)
        (All-append IsRead _ _ reads
          (failed_checks-IsRead devices address times _ found stale h.1 unseen))
