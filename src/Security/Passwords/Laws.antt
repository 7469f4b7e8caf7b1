-- ===== src/Security/Passwords/Laws.antt =====
-- A stored password verifies.
use native.Mathlib.Decide.{ℕ_discrete}
use Prim.Native.Char.{Char, code}
use Prim.Native.String.{◌++◌}
use Prim.Native.String.append.{cons as append-cons, nil as append-nil}
use trade_post.Base.{
  ◌+◌, ◌≤◌, ℕ, zero, suc, ◌/◌, ◌%◌, ◌<◌, ◌≡◌, ◌∙◌, refl, sym, ap, String, Bool, true, false, not,
  ◌&&◌, ◌||◌, Option, none, some, List, [], ◌∷◌, arith, ◌==◌, str_eq, eq_iff, All, Bool-cases, inl,
  inr,
}
use trade_post.Base.Int.{pos}
use trade_post.Config.{Settings, is_true_text}
use trade_post.Security.Passwords.{
  Library, hex_digit, hex, is_ascii_space, digit_of, from_hex, cut, split_parts, scheme, verified,
  same_bytes, iterations, hash_password, verify_password,
}

abbrev is_some_of : ℕ → Option ℕ → Bool
is_some_of d none = false
is_some_of d (some e) = e == d

-- What is needed of the digit for `d`.
nibble_test : ℕ → Bool
nibble_test d =
    not (is_ascii_space (hex_digit d))
    && is_some_of d (digit_of (hex_digit d))
    && not (code (hex_digit d) == b'$')

-- The test of the digits from `lo` on, of which `left` are looked at.
are_nibbles : (left lo : ℕ) → Bool
are_nibbles zero lo = true
are_nibbles (suc left) lo = are_nibbles left (lo + 1) && nibble_test lo

nibble_at :
    (left lo d : ℕ) → lo ≤ d → d < lo + left → are_nibbles left lo ≡ true → nibble_test d ≡ true
unfolding are_nibbles
nibble_at zero lo d above below tested = absurd (omega arith)
nibble_at (suc left) lo d above below tested = elim (ℕ_discrete lo d) [
  | yes e ↦ rw (← e) (ground arith)
  | no ne ↦ nibble_at left (lo + 1) d (omega arith) (omega arith) (ground arith)
]

all_nibbles : are_nibbles 16 0 ≡ true
unfolding are_nibbles nibble_test digit_of
all_nibbles = refl

some_of : (d : ℕ) (o : Option ℕ) → is_some_of d o ≡ true → o ≡ some d
some_of d none h = cc
some_of d (some e) h = ground arith

nibble :
    (d : ℕ)
    → d < 16
    → (is_ascii_space (hex_digit d) ≡ false)
      × (digit_of (hex_digit d) ≡ some d)
      × ((code (hex_digit d) == b'$') ≡ false)
unfolding nibble_test
nibble d h =
    ground (arith, nibble_at 16 0 d (omega arith) h all_nibbles, some_of d (digit_of (hex_digit d)))

from_hex-hex : (bs : List ℕ) → All (λ b. b < 256) bs → from_hex (hex bs) ≡ some bs
unfolding from_hex hex
from_hex-hex [] h = refl
from_hex-hex (b ∷ bs) h =
    let (space, high, _) = nibble (b / 16) (omega arith) in
    let (_, low, _) = nibble (b % 16) (omega arith) in
    rw space (rw (high, low, from_hex-hex bs h.1) (ground arith))

abbrev has_dollar : String → Bool
has_dollar String.[] = false
has_dollar (String.◌∷◌ c s) = code c == b'$' || has_dollar s

abbrev dollar : Char
dollar = "$"

dollar-append : (b : String) → "$" ++ b ≡ String.◌∷◌ dollar b
dollar-append b = append-cons dollar String.[] b ∙ ap (String.◌∷◌ dollar) (append-nil b)

cut-append : (a b : String) → has_dollar a ≡ false → cut (a ++ ("$" ++ b)) ≡ (a, some b)
unfolding cut
cut-append String.[] b h = ap cut (append-nil ("$" ++ b) ∙ dollar-append b)
cut-append (String.◌∷◌ c a) b h =
    ap cut (append-cons c a ("$" ++ b)) ∙ ground (arith, cut-append a b)

cut_whole : (a : String) → has_dollar a ≡ false → cut a ≡ (a, none)
unfolding cut
cut_whole String.[] h = refl
cut_whole (String.◌∷◌ c a) h = ground (arith, cut_whole a)

hex_no_dollar : (bs : List ℕ) → All (λ b. b < 256) bs → has_dollar (hex bs) ≡ false
unfolding hex
hex_no_dollar [] h = refl
hex_no_dollar (b ∷ bs) h =
    ground
      (arith, nibble (b / 16) (omega arith), nibble (b % 16) (omega arith), hex_no_dollar bs h.1)

same_bytes_refl : (bs : List ℕ) → same_bytes bs bs ≡ true
unfolding same_bytes
same_bytes_refl [] = refl
same_bytes_refl (b ∷ bs) = ground (arith, same_bytes_refl bs)

module _ (lib : Library) {F : Type 0} (s : Settings F) where
  -- What a password leaves in the table, and the library's texts of its count.
  pub record IsStored (salt : List ℕ) (plain stored : String) : Type 0 where
    pub hashed : hash_password lib s salt plain ≡ some stored
    pub salt_bytes : All (λ b. b < 256) salt
    pub digest_bytes : All (λ b. b < 256) (lib.pbkdf2 plain salt (iterations s))
    pub count_text : has_dollar (lib.show_int (iterations s)) ≡ false
    pub count_read : lib.parse_int (lib.show_int (iterations s)) ≡ some (pos (iterations s))

  split_stored :
      (salt : List ℕ) (plain stored : String)
      → IsStored salt plain stored
      → split_parts stored
        ≡ some (
          scheme,
          lib.show_int (iterations s),
          hex salt,
          hex (lib.pbkdf2 plain salt (iterations s)),
        )
  unfolding hash_password split_parts
  split_stored salt plain stored h =
      let count = lib.show_int (iterations s) in
      let digest = hex (lib.pbkdf2 plain salt (iterations s)) in
      let e : stored ≡ scheme ++ ("$" ++ (count ++ ("$" ++ (hex salt ++ ("$" ++ digest))))) =
        ground (arith, h.hashed) in
      rw e (
        ground (
          arith,
          cut-append scheme (count ++ ("$" ++ (hex salt ++ ("$" ++ digest)))) refl,
          cut-append count (hex salt ++ ("$" ++ digest)) h.count_text,
          cut-append (hex salt) digest (hex_no_dollar salt h.salt_bytes),
        ))

  stored_given :
      (stored : String) (parts : String × String × String × String)
      → split_parts stored ≡ some parts
      → is_true_text stored ≡ true
  unfolding split_parts cut
  stored_given stored parts h = elim (Bool-cases (str_eq stored "")) [
    | inr other ↦ rw other refl
    | inl empty ↦ cc (sym h ∙ ap split_parts ((eq_iff stored "").0 empty))
  ]

  verified_as :
      (salt : List ℕ) (plain stored p : String)
      → IsStored salt plain stored
      → is_true_text p ≡ true
      → verify_password lib p stored
        ≡ verified
            (same_bytes (lib.pbkdf2 p salt (iterations s)) (lib.pbkdf2 plain salt (iterations s)))
  unfolding verify_password
  verified_as salt plain stored p h given =
      let parts = split_stored salt plain stored h in
      let full = stored_given stored _ parts in
      ground (
        arith,
        parts,
        full,
        given,
        h.count_read,
        from_hex-hex salt h.salt_bytes,
        from_hex-hex (lib.pbkdf2 plain salt (iterations s)) h.digest_bytes,
      )

  -- A text that `hash_password` returns is accepted for its password, and for another password that
  -- is not empty exactly if PBKDF2 gives the same bytes, provided that the salt and what it gives are
  -- bytes, and that the library reads the count which it has written, without a dollar sign.
  pub verify_password-hash_password :
      (salt : List ℕ) (plain stored other : String)
      → IsStored salt plain stored
      → is_true_text other ≡ true
      → (verify_password lib plain stored ≡ verified true)
        × (verify_password lib other stored
            ≡ verified (
                same_bytes
                  (lib.pbkdf2 other salt (iterations s))
                  (lib.pbkdf2 plain salt (iterations s))))
  unfolding hash_password
  verify_password-hash_password salt plain stored other h given =
      let own = verified_as salt plain stored plain h (ground (arith, h.hashed)) in
      (
        own ∙ ap verified (same_bytes_refl (lib.pbkdf2 plain salt (iterations s))),
        verified_as salt plain stored other h given,
      )
