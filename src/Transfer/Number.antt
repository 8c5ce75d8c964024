-- ===== src/Transfer/Number.antt =====
-- Python's `int(value)` on the values of a document, and the comparisons that config_transfer.py makes.
use Prim.Native.Char.{code}
use netbox_monitor.Prelude.{
  ℕ, zero, suc, String, Bool, false, ◌&&◌, Option, none, some, ltb, leb, ◌=?◌, if◌then◌else◌, maybe,
}
use netbox_monitor.Netbox.Slug.{strip, strip_left, strip_right, is_space}
use netbox_monitor.Json.{Json, bool, num, minus, str}
use netbox_monitor.Config.{digits}

-- `negsuc n` is -(n + 1).
pub data ℤ : Type 0 where
  pos : ℕ → ℤ
  negsuc : ℕ → ℤ

abbrev negate : ℕ → ℤ
negate zero = pos 0
negate (suc n) = negsuc n

abbrev signed : String → Option ℤ
signed String.[] = none
signed (String.◌∷◌ c s) =
    if code c =? b'-'
    then maybe (digits 0 false s) none (λ n. some (negate n))
    else if code c =? b'+'
    then maybe (digits 0 false s) none (λ n. some (pos n))
    else maybe (digits 0 false (String.◌∷◌ c s)) none (λ n. some (pos n))

-- `int(value)`, with nothing where it raises
unfoldable pub to_integer : Json → Option ℤ
unfolding strip_left strip_right
to_integer (bool b) = some (pos (if b then 1 else 0))
to_integer (num n) = some (pos n)
to_integer (minus n) = some (negate n)
to_integer (str s) = signed (strip is_space s)
to_integer _ = none

-- `value > n`
abbrev pub is_above : ℕ → ℤ → Bool
is_above n (pos m) = ltb n m
is_above n (negsuc m) = false

-- `value == other`
abbrev pub is_same : ℤ → ℤ → Bool
is_same (pos n) (pos m) = n =? m
is_same (negsuc n) (negsuc m) = n =? m
is_same _ _ = false

-- the value, where `0 < value <= limit`
abbrev pub within : ℕ → ℤ → Option ℕ
within limit (pos n) = if ltb 0 n && leb n limit then some n else none
within limit (negsuc n) = none
