-- ===== src/Sync/Lldp/Attempts/Bounds.antt =====
-- The attempts at one host: known drivers only, and no secret twice with one driver.
use text.Mathlib.TextPositions.{eq_refl}
use netbox_monitor.Prelude.{
  String, ◌≡◌, true, false, not, ◌&&◌, Option, none, some, List, [], ◌∷◌, ◌++◌, All, All-append,
  All-map, eq_iff, find, mem, arith, ◌==◌, maybe, Bool-cases, inl, inr,
}
use netbox_monitor.Wire.Lldp.{Credential}
use netbox_monitor.Lldp.Registry.{all_drivers}
use netbox_monitor.Sync.Lldp.Attempts.{
  Key, Attempt, Plan, has_key, same_key, key_of, add, add_all, add_profiles, drivers_for,
  plan_attempts,
}

-- No two attempts agree in the driver and in all secrets.
abbrev pub Distinct : List Attempt → Type 0
Distinct [] = Unit
Distinct (a ∷ rest) = All (λ b. same_key (key_of a) (key_of b) ≡ false) rest × Distinct rest

pub record IsSound (p : Plan) : Type 0 where
  pub known : All (λ a. mem a.driver all_drivers ≡ true) p.attempts
  pub distinct : Distinct p.attempts
  pub covered : All (λ a. has_key (key_of a) p.seen ≡ true) p.attempts

same_key_refl : (k : Key) → same_key k k ≡ true
same_key_refl k =
    simp (eq_refl k.driver, eq_refl k.username, eq_refl k.password, eq_refl k.snmp_community)

has_key-same :
    (j k : Key) (ks : List Key) → same_key j k ≡ true → has_key j ks ≡ true → has_key k ks ≡ true
has_key-same j k [] s h = h
has_key-same j k (l ∷ ks) s h = ground (
  arith,
  has_key-same j k ks s,
  eq_iff j.driver k.driver,
  eq_iff j.username k.username,
  eq_iff j.password k.password,
  eq_iff j.snmp_community k.snmp_community,
)

-- An attempt whose key is not covered differs from every attempt whose key is.
apart :
    (a x : Attempt) (seen : List Key)
    → has_key (key_of a) seen ≡ false
    → has_key (key_of x) seen ≡ true
    → same_key (key_of x) (key_of a) ≡ false
apart a x seen new old = elim (Bool-cases (same_key (key_of x) (key_of a))) [
  | inl same ↦ cc (has_key-same (key_of x) (key_of a) seen same old)
  | inr differ ↦ differ
]

Distinct-snoc :
    (xs : List Attempt) (a : Attempt)
    → Distinct xs
    → All (λ x. same_key (key_of x) (key_of a) ≡ false) xs
    → Distinct (xs ++ a ∷ [])
Distinct-snoc [] a d h = (tt, tt)
Distinct-snoc (x ∷ xs) a d h = (All-append _ xs (a ∷ []) d.0 (h.0, tt), Distinct-snoc xs a d.1 h.1)

add-IsSound : (p : Plan) (a : Attempt) → IsSound p → IsSound (add p a)
unfolding add
add-IsSound p a s =
    elim (Bool-cases (mem a.driver all_drivers && not (has_key (key_of a) p.seen))) [
      | inr refused ↦ rw refused s
      | inl taken ↦ rw taken (record {
        known = All-append _ p.attempts (a ∷ []) s.known (ground arith, tt);
        distinct =
            Distinct-snoc p.attempts a s.distinct
              (All-map p.attempts (λ x. apart a x p.seen (ground arith)) s.covered);
        covered =
            All-append _ p.attempts (a ∷ []) (All-map p.attempts (λ x h. ground arith) s.covered)
              (rw (same_key_refl (key_of a)), tt);
      })
    ]

add_all-IsSound :
    (c : Credential) (p : Plan) (ds : List String) → IsSound p → IsSound (add_all c p ds)
add_all-IsSound c p [] s = s
add_all-IsSound c p (d ∷ ds) s =
    let a : Attempt = record { driver = d; cred = some c } in
    add_all-IsSound c (add p a) ds (add-IsSound p a s)

add_profiles-IsSound :
    (hint : Option String) (p : Plan) (cs : List Credential)
    → IsSound p
    → IsSound (add_profiles hint p cs)
add_profiles-IsSound hint p [] s = s
add_profiles-IsSound hint p (c ∷ cs) s =
    add_profiles-IsSound hint (add_all c p (drivers_for hint c)) cs
      (add_all-IsSound c p (drivers_for hint c) s)

empty_IsSound : IsSound (record { attempts = []; seen = [] })
empty_IsSound = record { known = tt; distinct = tt; covered = tt }

secret-IsSound :
    (hint : Option String) (p : Plan) (secret : Option Credential) (cs : List Credential)
    → IsSound p
    → IsSound (add_profiles hint (maybe secret p (λ s. add_all s p (drivers_for hint s))) cs)
secret-IsSound hint p none cs h = add_profiles-IsSound hint p cs h
secret-IsSound hint p (some s) cs h =
    add_profiles-IsSound hint _ cs (add_all-IsSound s p (drivers_for hint s) h)

plan_attempts-IsSound :
    (hint : Option String) (cached : Option (String × String)) (secret : Option Credential)
    (cs : List Credential)
    → IsSound (plan_attempts hint cached secret cs)
unfolding plan_attempts
plan_attempts-IsSound hint none secret cs = secret-IsSound hint _ secret cs empty_IsSound
plan_attempts-IsSound hint (some (driver, name)) secret cs =
    let a : Attempt = record {
      driver = driver;
      cred = maybe (find (λ p. p.name == name) cs) secret some;
    } in
    secret-IsSound hint _ secret cs (add-IsSound _ a empty_IsSound)

-- Whatever is cached and whichever profiles there are: every attempt names a known driver, and no
-- two attempts agree in the driver, the user name, the password and the community.
pub plan_attempts-Distinct :
    (hint : Option String) (cached : Option (String × String)) (secret : Option Credential)
    (profiles : List Credential)
    → All
        (λ a. mem a.driver all_drivers ≡ true)
        (plan_attempts hint cached secret profiles).attempts
      × Distinct (plan_attempts hint cached secret profiles).attempts
plan_attempts-Distinct hint cached secret profiles =
    let s = plan_attempts-IsSound hint cached secret profiles in (s.known, s.distinct)
