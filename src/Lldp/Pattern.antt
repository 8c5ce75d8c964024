-- ===== src/Lldp/Pattern.antt =====
-- The regular expressions of lldp/__init__.py and lldp/registry.py, on texts in lower case.
use Prim.Native.Char.{code}
use netbox_monitor.Prelude.{
  ℕ, String, Bool, true, false, not, ◌&&◌, ◌||◌, Option, none, some, leb, ◌=?◌, if◌then◌else◌,
  maybe,
}
use netbox_monitor.Netbox.Slug.{is_space}

-- What stands in the text behind the prefix, if it begins with it.
unfoldable pub drop_prefix : String → String → Option String
drop_prefix String.[] s = some s
drop_prefix (String.◌∷◌ c p) String.[] = none
drop_prefix (String.◌∷◌ c p) (String.◌∷◌ d s) =
    let rest = drop_prefix p s in if code c =? code d then rest else none

-- A test that holds at some place of the text.
unfoldable pub at_some_place : (String → Bool) → String → Bool
at_some_place test String.[] = test String.[]
at_some_place test (String.◌∷◌ c s) = test (String.◌∷◌ c s) || at_some_place test s

abbrev begins : String → String → Bool
begins p s = maybe (drop_prefix p s) false (λ _. true)

unfoldable pub has_part : String → String → Bool
unfolding at_some_place drop_prefix
has_part text part = at_some_place (begins part) text

-- the first character passes the test
abbrev first : (ℕ → Bool) → String → Bool
first test String.[] = false
first test (String.◌∷◌ c s) = test (code c)

-- `\w`, on ASCII
abbrev is_word : ℕ → Bool
is_word c =
    leb b'a' c && leb c b'z' || leb b'A' c && leb c b'Z' || leb b'0' c && leb c b'9' || c =? b'_'

-- a word ends here
abbrev at_boundary : String → Bool
at_boundary s = not (first is_word s)

-- `hpe?` followed by what passes the test
abbrev hp_then : (String → Bool) → String → Bool
hp_then test s =
    maybe (drop_prefix "hp" s) false (λ r. test r || maybe (drop_prefix "e" r) false test)

-- `hpe?\s`
unfoldable pub has_hp_space : String → Bool
unfolding at_some_place drop_prefix
has_hp_space = at_some_place (hp_then (first is_space))

-- `hpe?\b`
unfoldable pub has_hp_word : String → Bool
unfolding at_some_place drop_prefix
has_hp_word = at_some_place (hp_then at_boundary)

-- `nx-?os`
unfoldable pub has_nxos : String → Bool
unfolding at_some_place drop_prefix
has_nxos = at_some_place (λ s.
    maybe (drop_prefix "nx" s) false
      (λ r. begins "os" r || maybe (drop_prefix "-" r) false (begins "os")))

-- `(emc|networking)` behind any white space
unfoldable pub dell_line : String → Bool
unfolding drop_prefix
dell_line String.[] = false
dell_line (String.◌∷◌ c s) =
    begins "emc" (String.◌∷◌ c s)
    || begins "networking" (String.◌∷◌ c s)
    || is_space (code c) && dell_line s

-- `dell\s*(emc|networking)`
unfoldable pub has_dell : String → Bool
unfolding at_some_place drop_prefix dell_line
has_dell = at_some_place (λ s. maybe (drop_prefix "dell" s) false dell_line)
