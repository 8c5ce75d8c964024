-- ===== src/Sync/Lldp/Poll.antt =====
-- sync/lldp.py: `_poll_target`, which tries drivers and credentials until neighbours come back.
pub mod Bounds
use netbox_monitor.Prelude.{
  ℕ, zero, suc, ◌+◌, String, Bool, true, false, ◌&&◌, Option, none, some, List, [], ◌∷◌, ◌++◌, ◌⊎◌,
  inl, inr, either, if◌then◌else◌, maybe, is_nil, leb, mem, ◌<>◌,
}
use netbox_monitor.Wire.Lldp.{Neighbor, Credential}
use netbox_monitor.Wire.Request.{Request, Exn}
use netbox_monitor.Effects.{Prog, pure, try_catch, ask, ◌>>=◌, ◌>>◌}
use netbox_monitor.Lldp.Registry.{ssh_drivers, collect}
use netbox_monitor.Sync.Lldp.Types.{Context, CrawlTarget, is_connection_error}
use netbox_monitor.Sync.Lldp.Attempts.{
  Attempt, username_of, password_of, community_of, cache_working, build_attempts,
}

pub record Poll : Type 0 where
  pub neighbors : List Neighbor
  pub cred : Option Credential
  pub driver : String

-- The local variables of the loop.
pub record Tries : Type 0 where
  pub ssh_unreachable : Bool
  pub tried : List String
  pub capped : Bool

-- The body of the `try`: the neighbours, or the exception.
unfoldable pub attempt : Context → String → Attempt → Prog (Poll ⊎ Exn)
attempt ctx host a =
    try_catch
      (do
        neighbors ←
            collect a.driver host (username_of a.cred) (password_of a.cred) (community_of a.cred)
        cache_working ctx host a.driver a.cred
        pure (inl (record { neighbors = neighbors; cred = a.cred; driver = a.driver })))
      (λ e. pure (inr e))

unfoldable pub note_failure : Attempt → Exn → Tries → Tries
note_failure a e t = record t {
  ssh_unreachable =
      if mem a.driver ssh_drivers && is_connection_error e then true else t.ssh_unreachable;
  tried = t.tried ++ (a.driver <> "/" <> e.type_name) ∷ [];
}

-- The loop over `enumerate(attempts)`: a poll that worked, or how the tries ended.
unfoldable pub try_attempts : Context → String → List Attempt → ℕ → Tries → Prog (Poll ⊎ Tries)
try_attempts ctx host [] num t = pure (inr t)
try_attempts ctx host (a ∷ rest) num t =
    let skip = try_attempts ctx host rest (suc num) t in
    let go = attempt ctx host a >>= λ outcome.
    either outcome (λ poll. pure (inl poll))
      (λ e. try_attempts ctx host rest (suc num) (note_failure a e t)) in
    if leb ctx.max_auth_attempts num
    then pure (inr (record t { capped = true }))
    else if t.ssh_unreachable && mem a.driver ssh_drivers
    then skip
    else go

abbrev join : List String → String
join [] = ""
join (s ∷ []) = s
join (s ∷ t ∷ rest) = s <> ", " <> join (t ∷ rest)

-- `target.last_error`
unfoldable pub last_error : List Attempt → Tries → String
last_error attempts t =
    if is_nil attempts
    then "no driver/credential available to try"
    else if is_nil t.tried
    then (if t.capped then "no credential tried (attempt cap reached)" else "unreachable")
    else join t.tried <> (if t.capped then " (attempt cap reached)" else "")

-- The poll, or `target.last_error`.
unfoldable pub poll_target : Context → CrawlTarget → List Credential → Prog (Poll ⊎ String)
poll_target ctx target profiles = do
  attempts ← build_attempts ctx target profiles
  outcome ←
      try_attempts ctx target.host attempts 0
        (record { ssh_unreachable = false; tried = []; capped = false })
  pure (either outcome inl (λ t. inr (last_error attempts t)))
