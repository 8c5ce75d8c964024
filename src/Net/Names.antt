-- ===== src/Net/Names.antt =====
-- `sanitize_dns_name` of net_utils.py.
use Prim.Native.Char.{code}
use netbox_monitor.Prelude.{
  ℕ, String, Bool, ◌&&◌, ◌||◌, Option, maybe, leb, ◌=?◌, if◌then◌else◌, truthy, ◌<>◌, ◌≡◌, refl,
  some,
}
use netbox_monitor.Netbox.Slug.{lower, strip, strip_left, strip_right, is_space}

-- `[A-Za-z0-9.-]`
abbrev is_host_char : ℕ → Bool
is_host_char c =
    leb b'a' c && leb c b'z'
    || leb b'A' c && leb c b'Z'
    || leb b'0' c && leb c b'9'
    || c =? b'.'
    || c =? b'-'

-- each character outside the class becomes a dash
unfoldable pub dash_others : String → String
dash_others String.[] = String.[]
dash_others (String.◌∷◌ c s) =
    let rest = dash_others s in if is_host_char (code c) then String.◌∷◌ c rest else "-" <> rest

unfoldable pub sanitize_dns_name : Option String → String
unfolding dash_others strip_left strip_right lower
sanitize_dns_name name = maybe (truthy name) "" (λ s.
    lower (strip (λ c. c =? b'-') (dash_others (strip_right (λ c. c =? b'.') (strip is_space s)))))

sanitize_dns_name_lem : sanitize_dns_name (some " My_Phone.lan. ") ≡ "my-phone.lan"
unfolding sanitize_dns_name
sanitize_dns_name_lem = refl

-- A dot that the last `strip` uncovers stays.
sanitize_dns_name_dot : sanitize_dns_name (some "host._") ≡ "host."
unfolding sanitize_dns_name
sanitize_dns_name_dot = refl
