-- ===== src/Netbox/Slug.antt =====
-- `slugify` of clients/netbox.py.
use Prim.Native.Char.{Char, code}
use netbox_monitor.Prelude.{
  ℕ, zero, suc, ◌-◌, String, Bool, true, false, ◌&&◌, ◌||◌, leb, ◌=?◌, if◌then◌else◌, is_empty,
  ◌<>◌, ◌≡◌, refl,
}

abbrev is_upper : ℕ → Bool
is_upper c = leb b'A' c && leb c b'Z'

-- `[a-z0-9_-]`
abbrev pub is_slug_char : ℕ → Bool
is_slug_char c = leb b'a' c && leb c b'z' || leb b'0' c && leb c b'9' || c =? b'_' || c =? b'-'

-- the character at an index, for indices in range
abbrev pub nth : String → ℕ → Char → Char
nth String.[] n d = d
nth (String.◌∷◌ x s) zero d = x
nth (String.◌∷◌ x s) (suc n) d = nth s n d

abbrev lower_char : Char → Char
lower_char c = if is_upper (code c) then nth "abcdefghijklmnopqrstuvwxyz" (code c - b'A') c else c

-- `value.lower()`, on ASCII letters
unfoldable pub lower : String → String
lower String.[] = String.[]
lower (String.◌∷◌ c s) = String.◌∷◌ (lower_char c) (lower s)

-- Leading characters that pass the test, dropped.
unfoldable pub strip_left : (ℕ → Bool) → String → String
strip_left test String.[] = String.[]
strip_left test (String.◌∷◌ c s) =
    let rest = strip_left test s in if test (code c) then rest else String.◌∷◌ c s

-- Trailing characters that pass the test, dropped.
unfoldable pub strip_right : (ℕ → Bool) → String → String
strip_right test String.[] = String.[]
strip_right test (String.◌∷◌ c s) =
    let rest = strip_right test s in
    if test (code c) && is_empty rest then String.[] else String.◌∷◌ c rest

abbrev pub strip : (ℕ → Bool) → String → String
strip test s = strip_right test (strip_left test s)

-- the ASCII white space of `str.strip()`
abbrev pub is_space : ℕ → Bool
is_space c = c =? 32 || leb 9 c && leb c 13 || leb 28 c && leb c 31

-- `re.sub("[class]+", "-", s)`: each run of characters that pass the test becomes one dash. The
-- flag says that the character before belongs to a run.
unfoldable pub squash : (ℕ → Bool) → Bool → String → String
squash test run String.[] = String.[]
squash test run (String.◌∷◌ c s) =
    let rest = squash test (test (code c)) s in
    if test (code c) then (if run then rest else "-" <> rest) else String.◌∷◌ c rest

abbrev is_dash : ℕ → Bool
is_dash c = c =? b'-'

abbrev is_bad : ℕ → Bool
is_bad c = if is_slug_char c then false else true

-- A run of one dash is left by `-{2,}` and made one dash by `squash`: the same text.
unfoldable pub slugify_or : String → String → String
unfolding lower strip_left strip_right squash
slugify_or default value =
    let s = squash is_bad false (strip is_space (lower value)) in
    let t = strip is_dash (squash is_dash false s) in if is_empty t then default else t

unfoldable pub slugify : String → String
unfolding slugify_or
slugify = slugify_or "unknown"

slugify_runs : slugify "  Cisco Systems, Inc. -- Switch!" ≡ "cisco-systems-inc-switch"
unfolding slugify
slugify_runs = refl

slugify_default : slugify " ?? " ≡ "unknown"
unfolding slugify
slugify_default = refl
