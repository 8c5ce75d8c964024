-- ===== src/Auth.antt =====
-- webui/auth.py: the hash of the password, and the signed tokens. PBKDF2 and the signer are parameters:
-- `Hasher.pbkdf2` gives nothing where it raises `ValueError`, and `Signer.loads` where it raises
-- `BadSignature`.
pub mod RoundTrip
use netbox_monitor.Prelude.{
  ℕ, zero, suc, ◌*◌, String, Bool, true, false, Option, none, some, List, [], ◌∷◌, ◌==◌, ◌<>◌,
  maybe, truthy, split,
}
use netbox_monitor.Json.{Fields, null, bool, str, no_fields, field, get, is_true}
use netbox_monitor.Transfer.Number.{ℤ, pos, negsuc, to_integer}

-- `hashlib.pbkdf2_hmac("sha256", password.encode(), bytes.fromhex(salt), iterations).hex()`, of the
-- password, the salt and the iterations
pub record Hasher : Type 0 where
  pub pbkdf2 : String → String → ℕ → Option String

abbrev pub iterations : ℕ
iterations = 300000

-- The salt is `secrets.token_hex(16)`.
unfoldable pub hash_password : Hasher → String → String → Option String
hash_password h salt password =
    maybe (h.pbkdf2 password salt iterations) none
      (λ digest. some ("pbkdf2" <> "$" <> "300000" <> "$" <> salt <> "$" <> digest))

abbrev digest_of : Hasher → String → String → ℤ → Option String
digest_of h password salt (pos n) = h.pbkdf2 password salt n
digest_of h password salt (negsuc n) = none

abbrev verify_parts : Hasher → String → List String → Bool
verify_parts h password (scheme ∷ rounds ∷ salt ∷ digest ∷ []) =
    maybe (to_integer (str rounds)) false
      (λ n. maybe (digest_of h password salt n) false (λ candidate. candidate == digest))
verify_parts h password parts = false

unfoldable pub verify_password : Hasher → String → String → Bool
verify_password h password stored = verify_parts h password (split b'$' stored)

-- `URLSafeTimedSerializer(secret, salt=…)`. `loads` also takes the maximal age, and gives nothing for a
-- `BadSignature`, which an expired token is too.
pub record Signer : Type 0 where
  pub dumps : String → String → Fields → String
  pub loads : String → String → ℕ → String → Option Fields

abbrev pub session_max_age : ℕ
session_max_age = 7 * 24 * 3600

abbrev pub csrf_max_age : ℕ
csrf_max_age = 12 * 3600

abbrev is_signed : Signer → String → String → ℕ → String → Option String → Bool
is_signed g secret salt max_age name token = maybe (truthy token) false (λ t.
    maybe (g.loads secret salt max_age t) false
      (λ fields. is_true (maybe (get name fields) null (λ v. v))))

unfoldable pub make_session_token : Signer → String → String
make_session_token g secret = g.dumps secret "nbm-session" (field "auth" (bool true) no_fields)

unfoldable pub check_session_token : Signer → String → Option String → Bool
check_session_token g secret token = is_signed g secret "nbm-session" session_max_age "auth" token

unfoldable pub make_csrf_token : Signer → String → String
make_csrf_token g secret = g.dumps secret "nbm-csrf" (field "csrf" (bool true) no_fields)

unfoldable pub check_csrf_token : Signer → String → Option String → Bool
check_csrf_token g secret token = is_signed g secret "nbm-csrf" csrf_max_age "csrf" token
