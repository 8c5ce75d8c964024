-- ===== src/Net/Oui.antt =====
-- oui.py: MAC addresses and the lookup of a vendor. The table comes from a download.
use Prim.Native.Char.{Char, code}
use netbox_monitor.Prelude.{
  ℕ, ◌+◌, ◌-◌, ◌/◌, ◌%◌, String, Bool, false, ◌&&◌, ◌||◌, Option, none, some, Dict, lookup, length,
  codes, leb, ◌=?◌, if◌then◌else◌, maybe, take_text, replace, List, [], ◌∷◌, ◌≡◌, refl,
}
use netbox_monitor.Netbox.Slug.{nth}

abbrev is_hex : ℕ → Bool
is_hex c = leb b'0' c && leb c b'9' || leb b'A' c && leb c b'F' || leb b'a' c && leb c b'f'

abbrev upper_hex : Char → Char
upper_hex c = if leb b'a' (code c) then nth "ABCDEF" (code c - b'a') c else c

-- The hexadecimal digits of a text, in upper case.
unfoldable pub hex_digits : String → String
hex_digits String.[] = String.[]
hex_digits (String.◌∷◌ c s) =
    let rest = hex_digits s in if is_hex (code c) then String.◌∷◌ (upper_hex c) rest else rest

-- `":".join(s[i : i + 2] for i in range(0, len(s), 2))`
unfoldable pub pairs : String → String
pairs String.[] = String.[]
pairs (String.◌∷◌ a String.[]) = String.◌∷◌ a String.[]
pairs (String.◌∷◌ a (String.◌∷◌ b String.[])) = String.◌∷◌ a (String.◌∷◌ b String.[])
pairs (String.◌∷◌ a (String.◌∷◌ b (String.◌∷◌ c s))) =
    String.◌∷◌ a (String.◌∷◌ b (String.◌∷◌ (nth ":" 0 c) (pairs (String.◌∷◌ c s))))

unfoldable pub normalize_mac : String → Option String
unfolding hex_digits pairs
normalize_mac mac =
    let digits = hex_digits mac in if length (codes digits) =? 12 then some (pairs digits) else none

abbrev hex_value : ℕ → ℕ
hex_value c = if leb c b'9' then c - b'0' else c - b'A' + 10

-- Bit 1 of the first octet, which the second digit has.
abbrev is_local : List ℕ → Bool
is_local (a ∷ b ∷ cs) = hex_value b / 2 % 2 =? 1
is_local _ = false

-- `OuiDB.lookup`
unfoldable pub oui_lookup : Dict String → String → Option String
oui_lookup table mac = maybe (normalize_mac mac) none (λ m.
    maybe (lookup (take_text 6 (replace b':' "" m)) table)
      (if is_local (codes m) then some "Locally administered (VM/randomized)" else none) some)

normalize_mac_lem : normalize_mac "aa-bb.cc dd:ee0f" ≡ some "AA:BB:CC:DD:EE:0F"
unfolding normalize_mac
normalize_mac_lem = refl

locally_administered : oui_lookup [] "02bbccddee0f" ≡ some "Locally administered (VM/randomized)"
unfolding oui_lookup normalize_mac lookup
locally_administered = refl
