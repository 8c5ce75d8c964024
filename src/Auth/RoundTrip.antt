-- ===== src/Auth/RoundTrip.antt =====
-- A password is accepted for its hash, and another one only where it has the same digest.
use Prim.Native.Char.{Char, code}
use netbox_monitor.Prelude.{
  ℕ, ◌≡◌, refl, ap, ◌∙◌, String, false, some, [], ◌∷◌, ◌==◌, ◌=?◌, ◌<>◌, split, some-injective, sym,
}
use text.Mathlib.TextLemmas.{nil-append, cons-append}
use netbox_monitor.Transfer.Number.{to_integer}
use netbox_monitor.Auth.{Hasher, iterations, hash_password, verify_password}

-- no character of the text has the code
abbrev pub Lacks : ℕ → String → Type 0
Lacks c String.[] = Unit {0}
Lacks c (String.◌∷◌ x s) = ((code x =? c) ≡ false) × Lacks c s

one_more : (x : Char) (s : String) → String.◌∷◌ x String.[] <> s ≡ String.◌∷◌ x s
one_more x s = cons-append x String.[] s ∙ ap (String.◌∷◌ x) (nil-append s)

split-Lacks : (c : ℕ) (s : String) → Lacks c s → split c s ≡ s ∷ []
split-Lacks c String.[] h = refl
split-Lacks c (String.◌∷◌ x s) h =
    rw h.0 (rw (split-Lacks c s h.1) (ap (λ w. w ∷ []) (one_more x s)))

-- the part before the first separator
split-separated : (s t : String) → Lacks b'$' s → split b'$' (s <> "$" <> t) ≡ s ∷ split b'$' t
split-separated String.[] t h = rw (nil-append ("$" <> t)) (rw (one_more "$" t) refl)
split-separated (String.◌∷◌ x s) t h =
    rw (cons-append x s ("$" <> t))
      (rw h.0 (rw (split-separated s t h.1) (ap (λ w. w ∷ split b'$' t) (one_more x s))))

stored_parts :
    (salt digest : String)
    → Lacks b'$' salt
    → Lacks b'$' digest
    → split b'$' ("pbkdf2" <> "$" <> "300000" <> "$" <> salt <> "$" <> digest)
      ≡ "pbkdf2" ∷ "300000" ∷ salt ∷ digest ∷ []
stored_parts salt digest hs hd =
    split-separated "pbkdf2" ("300000" <> "$" <> salt <> "$" <> digest)
      (refl, (refl, (refl, (refl, (refl, (refl, tt))))))
    ∙ ap (λ ws. "pbkdf2" ∷ ws)
        (split-separated "300000" (salt <> "$" <> digest)
            (refl, (refl, (refl, (refl, (refl, (refl, tt))))))
          ∙ ap (λ ws. "300000" ∷ ws)
              (split-separated salt digest hs ∙ ap (λ ws. salt ∷ ws) (split-Lacks b'$' digest hd)))

-- A password is verified against the hash of another one, or of itself, exactly where their digests
-- for the salt are the same text. The salt and the digest of the hash are taken to have no "$", as
-- hexadecimal digits have none.
pub verify_password-hash_password :
    (h : Hasher) (password other salt digest candidate stored : String)
    → hash_password h salt password ≡ some stored
    → h.pbkdf2 password salt iterations ≡ some digest
    → h.pbkdf2 other salt iterations ≡ some candidate
    → Lacks b'$' salt
    → Lacks b'$' digest
    → verify_password h other stored ≡ (candidate == digest)
unfolding hash_password verify_password to_integer
verify_password-hash_password h password other salt digest candidate stored made hashed hashed' hs
      hd =
    let text = "pbkdf2" <> "$" <> "300000" <> "$" <> salt <> "$" <> digest in
    let eq : stored ≡ text = sym (some-injective (rw hashed at made)) in
    rw eq (rw (stored_parts salt digest hs hd) (rw hashed' refl))
