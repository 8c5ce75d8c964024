-- ===== src/State.antt =====
-- state.py: the SQLite file, with the last checks of the hosts and a table of keys and values.
-- A statement and the commit after it are one request. Times are whole seconds.
pub mod Laws
use netbox_monitor.Prelude.{
  ℕ, String, Bool, true, false, not, ◌&&◌, ◌||◌, Option, none, some, List, [], ◌∷◌, Dict, lookup,
  insert, erase, keep, if◌then◌else◌, maybe, truthy_num, codes, leb, ◌=?◌, ◌+◌, ◌<>◌,
}
use netbox_monitor.Wire.Request.{Request, Reply, Answer, answered, HostState}
use netbox_monitor.Effects.{Prog, pure, ask, ◌>>=◌, ◌>>◌}
use netbox_monitor.Effects.Run.{Environment}

unfoldable pub get_host : String → Prog (Option HostState)
get_host key = ask (Request.select_host key)

-- The row that a check leaves.
unfoldable pub checked : String → Bool → ℕ → Option HostState → HostState
checked key up now prev = record {
  key = key;
  last_seen = if up then some now else maybe prev none (λ h. h.last_seen);
  last_checked = some now;
  is_up = up;
  is_stale = if up then false else maybe prev false (λ h. h.is_stale);
}

unfoldable pub record_check : String → Bool → Option ℕ → Prog HostState
record_check key up at = do
  now ← maybe (truthy_num at) (ask Request.time) pure
  prev ← get_host key
  let state = checked key up now prev
  ask (Request.upsert_host state)
  pure state

unfoldable pub set_stale : String → Bool → Prog (Unit {0})
set_stale key stale = ask (Request.update_stale key stale)

unfoldable pub forget_host : String → Prog (Unit {0})
forget_host key = ask (Request.delete_host key)

unfoldable pub get_kv : String → Prog (Option String)
get_kv key = ask (Request.select_kv key)

unfoldable pub delete_kv : String → Prog (Unit {0})
delete_kv key = ask (Request.delete_kv key)

unfoldable pub set_kv : String → String → Prog (Unit {0})
set_kv key value = ask (Request.upsert_kv key value)

unfoldable pub list_kv : String → Prog (Dict String)
list_kv prefix = ask (Request.select_kv_like (prefix <> "%"))

-- The two tables. The primary keys keep the entries of one key to one.
pub record Db : Type 0 where
  pub hosts : Dict HostState
  pub kv : Dict String

abbrev fold_case : ℕ → ℕ
fold_case n = if leb 65 n && leb n 90 then n + 32 else n

abbrev some_suffix : (List ℕ → Bool) → List ℕ → Bool
some_suffix f [] = f []
some_suffix f (x ∷ xs) = f (x ∷ xs) || some_suffix f xs

-- `text LIKE pattern`: `%` for any text, `_` for a character, ASCII letters in either case.
abbrev like : List ℕ → List ℕ → Bool
like [] [] = true
like [] (x ∷ xs) = false
like (p ∷ ps) [] = p =? 37 && like ps []
like (p ∷ ps) (x ∷ xs) =
    let rest = like ps in
    if p =? 37
    then some_suffix rest (x ∷ xs)
    else (p =? 95 || fold_case p =? fold_case x) && rest xs

-- What the statements of state.py do to the tables; `other` answers the other requests.
unfoldable pub statement :
    ((r : Request) → Db → Answer (Reply r) × Db) → (r : Request) → Db → Answer (Reply r) × Db
statement other (Request.select_host key) db = (answered (lookup key db.hosts), db)
statement other (Request.upsert_host h) db =
    (answered tt, record db { hosts = insert h.key h db.hosts })
statement other (Request.update_stale key stale) db = (
  answered tt,
  maybe (lookup key db.hosts) db
      (λ h. record db { hosts = insert key (record h { is_stale = stale }) db.hosts }),
)
statement other (Request.delete_host key) db =
    (answered tt, record db { hosts = erase key db.hosts })
statement other (Request.select_kv key) db = (answered (lookup key db.kv), db)
statement other (Request.upsert_kv key value) db =
    (answered tt, record db { kv = insert key value db.kv })
statement other (Request.delete_kv key) db = (answered tt, record db { kv = erase key db.kv })
statement other (Request.select_kv_like pattern) db =
    (answered (keep (λ (k, v). like (codes pattern) (codes k)) db.kv), db)
statement other r db = other r db

abbrev pub sqlite : ((r : Request) → Db → Answer (Reply r) × Db) → Environment Db
sqlite other = record { answer = statement other }
