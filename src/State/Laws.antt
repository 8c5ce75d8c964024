-- ===== src/State/Laws.antt =====
-- What a sequence of checks leaves in the table of hosts.
use netbox_monitor.Prelude.{
  ℕ, String, ◌≡◌, refl, Bool, false, Option, none, some, List, [], ◌∷◌, lookup, insert, any, ◌||◌,
  ap, ◌∙◌, lookup-insert, if◌then◌else◌, maybe, ◌=?◌, All, arith,
}
use text.Mathlib.TextPositions.{eq_refl}
use netbox_monitor.Wire.Request.{Request, Reply, Answer}
use netbox_monitor.Effects.{Prog, pure, ask, ◌>>=◌, for_each}
use netbox_monitor.Effects.Run.{run}
use netbox_monitor.State.{Db, sqlite, statement, record_check, checked, get_host}

-- The times of the checks and whether the host answered, in their order.
unfoldable pub record_checks : String → List (ℕ × Bool) → Prog (Unit {0})
record_checks key checks =
    for_each checks tt (λ (now, up) _. record_check key up (some now) >>= λ _. pure tt)

-- The time of the last check that the host answered, or what was known before.
abbrev pub last_up : List (ℕ × Bool) → Option ℕ → Option ℕ
last_up [] old = old
last_up ((now, up) ∷ checks) old = last_up checks (if up then some now else old)

abbrev pub stale_at : String → Db → Bool
stale_at key db = maybe (lookup key db.hosts) false (λ h. h.is_stale)

abbrev pub seen_at : String → Db → Option ℕ
seen_at key db = maybe (lookup key db.hosts) none (λ h. h.last_seen)

if-or :
    (a b c : Bool) → (if b then false else if a then false else c) ≡ (if a || b then false else c)
if-or a b c = ground arith

module _ (other : (r : Request) → Db → Answer (Reply r) × Db) (key : String) where
  abbrev pub after_check : ℕ → Bool → Db → Db
  after_check now up db = record db {
    hosts = insert key (checked key up now (lookup key db.hosts)) db.hosts;
  }

  pub seen_at-after_check :
      (now : ℕ) (up : Bool) (db : Db)
      → seen_at key (after_check now up db) ≡ (if up then some now else seen_at key db)
  unfolding checked lookup
  seen_at-after_check now up db =
      rw (lookup-insert key key (checked key up now (lookup key db.hosts)) db.hosts, eq_refl key)
        refl

  stale_at-after_check :
      (now : ℕ) (up : Bool) (db : Db)
      → stale_at key (after_check now up db) ≡ (if up then false else stale_at key db)
  unfolding checked lookup
  stale_at-after_check now up db =
      rw (lookup-insert key key (checked key up now (lookup key db.hosts)) db.hosts, eq_refl key)
        refl

  -- After any sequence of checks, the table has the time of the last one that the host answered.
  pub record_checks-last_up :
      (checks : List (ℕ × Bool)) (db : Db)
      → All (λ c. (c.0 =? 0) ≡ false) checks
      → seen_at key (run (sqlite other) (record_checks key checks) db).final
        ≡ last_up checks (seen_at key db)
  unfolding run record_checks for_each record_check get_host ask ◌>>=◌ statement checked
  record_checks-last_up [] db h = refl
  record_checks-last_up ((now, up) ∷ checks) db h =
      let ih = record_checks-last_up checks (after_check now up db) h.1 in
      rw h.0 (ih ∙ ap (last_up checks) (seen_at-after_check now up db))

  -- A sequence of checks clears the stale flag if the host answered one of them, and leaves it as it
  -- was otherwise.
  pub record_checks-stale :
      (checks : List (ℕ × Bool)) (db : Db)
      → All (λ c. (c.0 =? 0) ≡ false) checks
      → stale_at key (run (sqlite other) (record_checks key checks) db).final
        ≡ (if any (λ c. c.1) checks then false else stale_at key db)
  unfolding run record_checks for_each record_check get_host ask ◌>>=◌ statement checked
  record_checks-stale [] db h = refl
  record_checks-stale ((now, up) ∷ checks) db h =
      let ih = record_checks-stale checks (after_check now up db) h.1 in
      rw h.0 (
        ih
        ∙ ap (λ b. if any (λ c. c.1) checks then false else b) (stale_at-after_check now up db)
        ∙ if-or up (any (λ c. c.1) checks) (stale_at key db))
