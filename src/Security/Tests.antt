-- ===== src/Security/Tests.antt =====
-- A password that is stored and verified, with a digest that is the length of the password before the
-- salt; and headers of proxies.
use Prim.Native.String.{count}
use Prim.Native.String.{◌++◌}
use trade_post.Base.{
  none, false, str_eq, ◌↔◌, strip, lstrip, rstrip, is_space, ℕ, ◌≡◌, refl, String, true, some, List,
  [], ◌∷◌, arith,
}
use trade_post.Base.Int.{pos}
use trade_post.Security.Address.{client_ip}
use trade_post.Security.Address.Proxies.{is_blank, client_ip_appended, client_ip_raises}
use trade_post.Samples.{settings}
use trade_post.Security.Passwords.{
  Library, stored_text, hash_password, verified, same_bytes, verify_password,
}
use trade_post.Security.Passwords.Laws.{IsStored, verify_password-hash_password}

abbrev library : Library
library = record {
  pbkdf2 = λ password salt _. count password ∷ salt;
  show_int = λ _. "100000";
  parse_int = λ _. some (pos 100_000);
}

abbrev salt : List ℕ
salt = 171 ∷ 7 ∷ []

abbrev row : String
row = stored_text library 100_000 salt (6 ∷ salt)

row-IsStored : IsStored library settings salt "secret" row
unfolding hash_password
row-IsStored = record {
  hashed = refl;
  salt_bytes = (ground arith, (ground arith, tt));
  digest_bytes = (ground arith, (ground arith, (ground arith, tt)));
  count_text = refl;
  count_read = refl;
}

verify_password-hash_password_example :
    (verify_password library "secret" row ≡ verified true)
    × (verify_password library "guess" row ≡ verified (same_bytes (5 ∷ salt) (6 ∷ salt)))
verify_password-hash_password_example =
    verify_password-hash_password library settings salt "secret" row "guess" row-IsStored refl

-- An address that the client has sent is not the one.
client_ip_appended_example :
    client_ip (str_eq "10.0.0.7") true (some ("1.1.1.1, 2.2.2.2" ++ ("," ++ " 10.0.0.7"))) none none
    ≡ some "10.0.0.7"
unfolding strip lstrip rstrip is_space
client_ip_appended_example =
    client_ip_appended (str_eq "10.0.0.7") "1.1.1.1, 2.2.2.2" " 10.0.0.7" none none refl refl refl

client_ip_raises_example :
    (client_ip (str_eq "10.0.0.7") false (some " , ") none (some "10.0.0.1") ≡ none)
    ↔ (is_blank (some " , ") ≡ true)
client_ip_raises_example =
    client_ip_raises (str_eq "10.0.0.7") false (some " , ") none (some "10.0.0.1")
