-- ===== src/Sync/Dns/Names.antt =====
-- sync/dns.py: `ptr_name_to_ip`. The texts of numbers to the base 16 and of addresses of version 6 are
-- parameters.
use netbox_monitor.Prelude.{
  ℕ, ◌≡◌, refl, String, Option, none, some, List, [], ◌∷◌, length, split, maybe, ◌<>◌, ◌==◌, ◌=?◌,
  if◌then◌else◌,
}
use netbox_monitor.Netbox.Slug.{lower, strip_right}

-- `int(text, 16)` and `str(ip_address(number))`: nothing where they raise a `ValueError`
pub record Numerals : Type 0 where
  pub from_hex : String → Option ℕ
  pub show_address : ℕ → Option String

-- `s[: -len(suffix)]`, where `s` ends with the suffix
unfoldable pub without_suffix : String → String → Option String
without_suffix suffix String.[] = if suffix == String.[] then some String.[] else none
without_suffix suffix (String.◌∷◌ c s) =
    let rest = without_suffix suffix s in
    if String.◌∷◌ c s == suffix
    then some String.[]
    else maybe rest none (λ t. some (String.◌∷◌ c t))

-- `separator.join(reversed(parts))`
unfoldable pub join_reversed : String → List String → String
join_reversed separator [] = ""
join_reversed separator (p ∷ []) = p
join_reversed separator (p ∷ q ∷ ps) = join_reversed separator (q ∷ ps) <> separator <> p

unfoldable pub ptr_name_to_ip : Numerals → String → Option String
ptr_name_to_ip num record_name =
    let name = strip_right (λ c. c =? b'.') (lower record_name) in
    let v6 = maybe (without_suffix ".ip6.arpa" name) none (λ stem.
      let nibbles = split b'.' stem in
      if length nibbles =? 32
      then maybe (num.from_hex (join_reversed "" nibbles)) none num.show_address
      else none) in
    maybe (without_suffix ".in-addr.arpa" name) v6 (λ stem.
      let octets = split b'.' stem in
      if length octets =? 4 then some (join_reversed "." octets) else none)

no_numerals : Numerals
no_numerals = record { from_hex = λ _. none; show_address = λ _. none }

ptr_name_to_ip_lem : ptr_name_to_ip no_numerals "5.0.200.10.IN-ADDR.ARPA." ≡ some "10.200.0.5"
unfolding ptr_name_to_ip without_suffix join_reversed lower strip_right
ptr_name_to_ip_lem = refl
