-- ===== src/Sync/Lldp/Poll/Bounds.antt =====
-- How a host is polled: at most `max_auth_attempts` sessions, with that host and no other.
use netbox_monitor.Prelude.{
  ℕ, suc, ◌+◌, ◌-◌, String, ◌≡◌, refl, Bool, false, Option, List, [], ◌∷◌, arith, ◌⊎◌, leb, ◌==◌,
}
use netbox_monitor.Wire.Lldp.{Credential}
use netbox_monitor.Wire.Object.{Obj}
use netbox_monitor.Wire.Request.{Request, Exn}
use netbox_monitor.Effects.{Prog, ask, ◌>>=◌}
use netbox_monitor.Effects.Only.{Only, Only-weaken, only_rules, only_pure}
use netbox_monitor.Effects.AtMost.{
  AtMost, AtMost-then, AtMost-either, at_most_rules, AtMost-bind, AtMost-none, AtMost-weaken,
  AtMost-try_catch, AtMost-if, AtMost-ask, at_most_pure, at_most_raise,
}
use netbox_monitor.Netbox.{Client}
use netbox_monitor.Netbox.Guard.{Permitted}
use netbox_monitor.Lldp.Registry.{collect, collect_local_macs}
use netbox_monitor.Sync.Lldp.Types.{Context, CrawlTarget}
use netbox_monitor.Sync.Lldp.Attempts.{
  Attempt, cached_working, cache_working, secrets_cred, build_attempts,
}
use netbox_monitor.Sync.Lldp.Poll.{Poll, Tries, attempt, note_failure, try_attempts, poll_target}

-- Switches are contacted at one host only.
abbrev pub AtHost : Client → String → Request → Type 0
AtHost c h (Request.collect d g u w k) = g ≡ h
AtHost c h (Request.collect_macs d g u w k) = g ≡ h
AtHost c h r = Permitted c r

module _ (c : Client) (h : String) where
  pub AtHost-of_Permitted : (r : Request) → Permitted c r → AtHost c h r
  AtHost-of_Permitted (Request.collect d g u w k) p = absurd p
  AtHost-of_Permitted (Request.collect_macs d g u w k) p = absurd p
  AtHost-of_Permitted r p = p

  collect-AtHost : (d u w k : String) → Only (AtHost c h) (collect d h u w k)
  unfolding collect
  collect-AtHost d u w k = search (only_rules, refl {a = h})

  pub collect_local_macs-AtHost :
      (d u w k : String) → Only (AtHost c h) (collect_local_macs d h u w k)
  unfolding collect_local_macs
  collect_local_macs-AtHost d u w k = search (only_rules, refl {a = h})

module _ (ctx : Context) (h : String) where
  cached_working-Permitted : Only (Permitted ctx.netbox) (cached_working ctx h)
  unfolding cached_working
  cached_working-Permitted = search (only_rules, tt)

  cache_working-Permitted :
      (d : String) (k : Option Credential) → Only (Permitted ctx.netbox) (cache_working ctx h d k)
  unfolding cache_working
  cache_working-Permitted d k = search (only_rules, tt)

  cache_working-AtHost :
      (d : String) (k : Option Credential) → Only (AtHost ctx.netbox h) (cache_working ctx h d k)
  cache_working-AtHost d k =
      Only-weaken _ (AtHost-of_Permitted ctx.netbox h) (cache_working-Permitted d k)

  attempt-AtHost : (a : Attempt) → Only (AtHost ctx.netbox h) (attempt ctx h a)
  unfolding attempt
  attempt-AtHost a = search (only_rules, collect-AtHost, cache_working-AtHost)

  try_attempts-AtHost :
      (rest : List Attempt) (num : ℕ) (t : Tries)
      → Only (AtHost ctx.netbox h) (try_attempts ctx h rest num t)
  unfolding try_attempts
  try_attempts-AtHost [] num t = only_pure _
  try_attempts-AtHost (a ∷ rest) num t =
      let skip = try_attempts-AtHost rest (suc num) t in
      let next = λ (e : Exn). try_attempts-AtHost rest (suc num) (note_failure a e t) in
      search (only_rules, attempt-AtHost)

  secrets_cred-Permitted : (o : Option Obj) → Only (Permitted ctx.netbox) (secrets_cred ctx o)
  unfolding secrets_cred
  secrets_cred-Permitted o = search (only_rules, tt) depth 8

module _ (ctx : Context) (target : CrawlTarget) (profiles : List Credential) where
  build_attempts-Permitted : Only (Permitted ctx.netbox) (build_attempts ctx target profiles)
  unfolding build_attempts
  build_attempts-Permitted = search (only_rules, cached_working-Permitted, secrets_cred-Permitted)

  build_attempts-AtHost : Only (AtHost ctx.netbox target.host) (build_attempts ctx target profiles)
  build_attempts-AtHost =
      Only-weaken _ (AtHost-of_Permitted ctx.netbox target.host) build_attempts-Permitted

  pub poll_target-AtHost : Only (AtHost ctx.netbox target.host) (poll_target ctx target profiles)
  unfolding poll_target
  poll_target-AtHost = search (only_rules, build_attempts-AtHost, try_attempts-AtHost)

-- a session that is opened to read the neighbours of a host
abbrev pub is_session : String → Request → Bool
is_session h (Request.collect d g u w k) = g == h
is_session h _ = false

module _ (c : Client) (h : String) where
  pub no_session : (r : Request) → Permitted c r → is_session h r ≡ false
  no_session (Request.collect d g u w k) p = absurd p
  no_session r p = refl

module _ (ctx : Context) (g h : String) where
  session : (d u w k : String) → AtMost (is_session g) 1 (ask (Request.collect d h u w k))
  session d u w k = AtMost-ask 0 (Request.collect d h u w k)

  collect-AtMost : (d u w k : String) → AtMost (is_session g) 1 (collect d h u w k)
  unfolding collect
  collect-AtMost d u w k = search (AtMost-if, at_most_raise, session)

  cache_working-AtMost :
      (d : String) (k : Option Credential) → AtMost (is_session g) 0 (cache_working ctx h d k)
  cache_working-AtMost d k =
      AtMost-none 0 _ (no_session ctx.netbox g) (cache_working-Permitted ctx h d k)

  attempt-AtMost : (a : Attempt) → AtMost (is_session g) 1 (attempt ctx h a)
  unfolding attempt
  attempt-AtMost a =
      AtMost-try_catch 1 0 _ _
        (AtMost-bind 1 0 _ _ (collect-AtMost _ _ _ _)
          (λ ns. search (at_most_rules, cache_working-AtMost)))
        (λ _. at_most_pure _)

  attempt-AtMost-left :
      (a : Attempt) (num : ℕ) (f : Poll ⊎ Exn → Prog (Poll ⊎ Tries))
      → leb ctx.max_auth_attempts num ≡ false
      → ((o : Poll ⊎ Exn) → AtMost (is_session g) (ctx.max_auth_attempts - suc num) (f o))
      → AtMost (is_session g) (ctx.max_auth_attempts - num) (attempt ctx h a >>= f)
  attempt-AtMost-left a num f room rest =
      AtMost-weaken (1 + (ctx.max_auth_attempts - suc num)) _ _ (ground arith)
        (AtMost-bind 1 _ (attempt ctx h a) f (attempt-AtMost a) rest)

  -- The attempts from number `num` on open at most as many sessions as are left under the cap.
  try_attempts-AtMost :
      (rest : List Attempt) (num : ℕ) (t : Tries)
      → AtMost (is_session g) (ctx.max_auth_attempts - num) (try_attempts ctx h rest num t)
  unfolding try_attempts
  try_attempts-AtMost [] num t = at_most_pure _
  try_attempts-AtMost (a ∷ rest) num t =
      let skip =
        AtMost-weaken _ (ctx.max_auth_attempts - num) _ (omega arith)
          (try_attempts-AtMost rest (suc num) t) in
      let next = λ (e : Exn). try_attempts-AtMost rest (suc num) (note_failure a e t) in
      search (at_most_pure, AtMost-if, AtMost-either, attempt-AtMost-left)

module _ (ctx : Context) (g : String) (target : CrawlTarget) (profiles : List Credential) where
  build_attempts-AtMost : AtMost (is_session g) 0 (build_attempts ctx target profiles)
  build_attempts-AtMost =
      AtMost-none 0 _ (no_session ctx.netbox g) (build_attempts-Permitted ctx target profiles)

  try_attempts-AtMost_all :
      (attempts : List Attempt) (t : Tries)
      → AtMost (is_session g) ctx.max_auth_attempts (try_attempts ctx target.host attempts 0 t)
  try_attempts-AtMost_all attempts t =
      AtMost-weaken _ _ _ (omega arith) (try_attempts-AtMost ctx g target.host attempts 0 t)

  -- Polling a target opens at most `max_auth_attempts` sessions with any host.
  pub poll_target-AtMost :
      AtMost (is_session g) ctx.max_auth_attempts (poll_target ctx target profiles)
  unfolding poll_target
  poll_target-AtMost = AtMost-then _ _ build_attempts-AtMost (λ attempts.
      AtMost-weaken (ctx.max_auth_attempts + 0) _ _ (omega arith)
        (AtMost-bind _ 0 _ _ (try_attempts-AtMost_all attempts _) (λ _. at_most_pure _)))
