-- ===== src/Tests/Auth.antt =====
-- A password and its hash, with a small hash function.
use netbox_monitor.Prelude.{◌≡◌, refl, false, some, ◌==◌}
use netbox_monitor.Auth.{Hasher, hash_password, verify_password}
use netbox_monitor.Auth.RoundTrip.{verify_password-hash_password}

abbrev hasher : Hasher
hasher = record { pbkdf2 = λ p s n. some p }

verify_password-hash_password_example :
    verify_password hasher "bad" "pbkdf2$300000$0a$good" ≡ ("bad" == "good")
unfolding hash_password
verify_password-hash_password_example =
    verify_password-hash_password hasher "good" "bad" "0a" "good" "bad" "pbkdf2$300000$0a$good" refl
      refl refl (refl, (refl, tt)) (refl, (refl, (refl, (refl, tt))))

-- what is no hash is not accepted
no_hash : verify_password hasher "good" "good" ≡ false
unfolding verify_password
no_hash = refl
