-- ===== src/Security/Passwords.antt =====
-- trade_post/security/auth.py: `hash_password` and `verify_password`. A sequence of bytes is a list of
-- numbers. PBKDF2 and Python's texts of numbers are arguments.
pub mod Laws
use Prim.Native.Char.{Char, code}
use Prim.Native.String.{◌++◌, char_at}
use trade_post.Base.{
  ℕ, zero, suc, ◌+◌, ◌-◌, ◌*◌, ◌/◌, ◌%◌, ◌^◌, max, String, Bool, true, false, not, ◌&&◌, ◌||◌,
  Option, none, some, List, [], ◌∷◌, leb, ltb, ◌==◌, str_eq, if◌then◌else◌,
}
use trade_post.Base.Int.{ℤ, pos, negsuc}
use trade_post.Config.{Settings, is_true_text}

-- What the code takes of the standard library.
pub record Library : Type 0 where
  pub pbkdf2 : String → List ℕ → ℕ → List ℕ  -- of a password, a salt and a positive count
  pub show_int : ℕ → String
  pub parse_int : String → Option ℤ

abbrev pub hex_digit : ℕ → Char
hex_digit d = char_at "0123456789abcdef" d

-- `bytes.hex()`
unfoldable pub hex : List ℕ → String
hex [] = String.[]
hex (b ∷ bs) = String.◌∷◌ (hex_digit (b / 16)) (String.◌∷◌ (hex_digit (b % 16)) (hex bs))

abbrev pub between : ℕ → ℕ → ℕ → Bool
between lo hi n = leb lo n && leb n hi

unfoldable pub digit_of : Char → Option ℕ
digit_of c =
    let n = code c in
    if between b'0' b'9' n
    then some (n - b'0')
    else if between b'a' b'f' n
    then some (n - b'a' + 10)
    else if between b'A' b'F' n
    then some (n - b'A' + 10)
    else none

abbrev pub is_ascii_space : Char → Bool
is_ascii_space c = between 9 13 (code c) || code c == 32

abbrev pub pair_of : Option ℕ → Option ℕ → Option (List ℕ) → Option (List ℕ)
pair_of (some h) (some l) (some bs) = some ((16 * h + l) ∷ bs)
pair_of _ _ _ = none

-- `bytes.fromhex()`, which passes over white space between the bytes.
unfoldable pub from_hex : String → Option (List ℕ)
unfolding digit_of
from_hex String.[] = some []
from_hex (String.◌∷◌ c String.[]) = if is_ascii_space c then some [] else none
from_hex (String.◌∷◌ c (String.◌∷◌ d s)) =
    let skipped = from_hex (String.◌∷◌ d s) in
    let paired = pair_of (digit_of c) (digit_of d) (from_hex s) in
    if is_ascii_space c then skipped else paired

-- The text before the first dollar sign, and what follows it.
unfoldable pub cut : String → String × Option String
cut String.[] = (String.[], none)
cut (String.◌∷◌ c s) =
    let (a, rest) = cut s in if code c == b'$' then (String.[], some s) else (String.◌∷◌ c a, rest)

-- The four parts of `stored.split("$", 3)`, where there are as many.
unfoldable pub split_parts : String → Option (String × String × String × String)
unfolding cut
split_parts stored =
    let (a, s) = cut stored in
    elim s [
      | none ↦ none
      | some s ↦
          let (b, t) = cut s in
          elim t [
            | none ↦ none
            | some t ↦ let (c, u) = cut t in elim u [ none ↦ none | some d ↦ some (a, b, c, d) ]
          ]
    ]

abbrev pub scheme : String
scheme = "pbkdf2-sha256"

-- What `verify_password` does: a Boolean, or a `ValueError` that it does not catch.
pub data Verified : Type 0 where
  verified : Bool → Verified
  value_error : Verified

unfoldable pub same_bytes : List ℕ → List ℕ → Bool
same_bytes [] [] = true
same_bytes (a ∷ as') (b ∷ bs) = a == b && same_bytes as' bs
same_bytes _ _ = false

abbrev pub iterations : {F : Type 0} → Settings F → ℕ
iterations s = max 100_000 (2 ^ s.bcrypt_work_factor / 64)

module _ (lib : Library) where
  abbrev pub stored_text : ℕ → List ℕ → List ℕ → String
  stored_text count salt digest =
      scheme ++ "$" ++ lib.show_int count ++ "$" ++ hex salt ++ "$" ++ hex digest

  -- `salt` is random. An empty password raises.
  unfoldable pub hash_password : {F : Type 0} → Settings F → List ℕ → String → Option String
  hash_password s salt plain =
      if is_true_text plain
      then some (stored_text (iterations s) salt (lib.pbkdf2 plain salt (iterations s)))
      else none

  -- The comparison; PBKDF2 refuses a count that is not positive.
  abbrev pub compared : String → Option ℤ → Option (List ℕ) → Option (List ℕ) → Verified
  compared plain (some (pos (suc n))) (some salt) (some digest) =
      verified (same_bytes (lib.pbkdf2 plain salt (suc n)) digest)
  compared plain (some (pos zero)) (some salt) (some digest) = value_error
  compared plain (some (negsuc n)) (some salt) (some digest) = value_error
  compared plain _ _ _ = verified false

  unfoldable pub verify_password : String → String → Verified
  unfolding split_parts from_hex same_bytes
  verify_password plain stored =
      if not (is_true_text plain && is_true_text stored)
      then verified false
      else elim (split_parts stored) [
        | none ↦ verified false
        | some (algo, count, salt, digest) ↦
            if str_eq algo scheme
            then compared plain (lib.parse_int count) (from_hex salt) (from_hex digest)
            else verified false
      ]
