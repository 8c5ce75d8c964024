-- ===== src/Prelude/Text.antt =====
-- What the program uses of Python's `str`, on ASCII letters.
use Prim.Native.Nat.{ℕ, zero, suc, ◌+◌, ◌-◌, ◌*◌}
use Prim.Native.Char.{code}
use Prim.Native.String.{String}
use mathlib.Core.Bool.{Bool, true, false, ◌&&◌}
use mathlib.Core.List.{List, [], ◌∷◌}
use mathlib.Core.Option.{Option, none, some}
use text.Mathlib.Text.{find?}
pub use text.Mathlib.Text.{starts_with}
use netbox_monitor.Prelude.Tests.{◌=?◌, leb, is_some, if◌then◌else◌}

infixr 60 ◌<>◌
abbrev pub ◌<>◌ : String → String → String
s <> t = Prim.Native.String.◌++◌ s t

-- `s.split(c)[0]`
abbrev pub before : ℕ → String → String
before c String.[] = String.[]
before c (String.◌∷◌ x s) = if code x =? c then String.[] else String.◌∷◌ x (before c s)

abbrev pub is_empty : String → Bool
is_empty String.[] = true
is_empty (String.◌∷◌ x s) = false

-- A text that is false in a test is the empty one.
abbrev pub non_empty : String → Bool
non_empty String.[] = false
non_empty (String.◌∷◌ x s) = true

abbrev pub codes : String → List ℕ
codes String.[] = []
codes (String.◌∷◌ c s) = code c ∷ codes s

-- `part in s`
abbrev pub contains_text : String → String → Bool
contains_text s part = is_some (find? s part)

-- `s.split(c)`
abbrev cons_head : ℕ → String → List String → List String
cons_head c x [] = x ∷ []
cons_head c x (w ∷ ws) = (x <> w) ∷ ws

abbrev pub split : ℕ → String → List String
split c String.[] = String.[] ∷ []
split c (String.◌∷◌ x s) =
    let rest = split c s in
    if code x =? c then String.[] ∷ rest else cons_head c (String.◌∷◌ x String.[]) rest

-- `s[:n]`
abbrev pub take_text : ℕ → String → String
take_text zero s = String.[]
take_text (suc n) String.[] = String.[]
take_text (suc n) (String.◌∷◌ x s) = String.◌∷◌ x (take_text n s)

-- `s.replace(c, r)`, for one character
abbrev pub replace : ℕ → String → String → String
replace c r String.[] = String.[]
replace c r (String.◌∷◌ x s) =
    let rest = replace c r s in if code x =? c then r <> rest else String.◌∷◌ x rest

-- `int(s)` on a text of decimal digits; nothing where it raises.
abbrev decimal_from : ℕ → String → Option ℕ
decimal_from n String.[] = some n
decimal_from n (String.◌∷◌ x s) =
    let rest = decimal_from (n * 10 + (code x - 48)) s in
    if leb 48 (code x) && leb (code x) 57 then rest else none

abbrev pub decimal : String → Option ℕ
decimal String.[] = none
decimal (String.◌∷◌ x s) = decimal_from 0 (String.◌∷◌ x s)

-- An optional text that is true in a test.
abbrev pub truthy : Option String → Option String
truthy none = none
truthy (some s) = if non_empty s then some s else none

-- An optional number that is true in a test.
abbrev pub truthy_num : Option ℕ → Option ℕ
truthy_num none = none
truthy_num (some n) = if n =? 0 then none else some n
