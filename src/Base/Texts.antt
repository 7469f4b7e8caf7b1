-- ===== src/Base/Texts.antt =====
-- Python's `str.strip()`, `str.upper()` and slices from the start, `str.startswith()` and `in`.
use Prim.Native.Nat.{ℕ, zero, suc, ◌-◌}
use Prim.Native.Char.{Char, code}
use Prim.Native.String.{String, ◌++◌, char_at}
use mathlib.Core.Bool.{Bool, true, false, ◌&&◌, ◌||◌}
use trade_post.Base.Tests.{if◌then◌else◌, leb, ltb, ◌==◌}

abbrev in_range : ℕ → ℕ → ℕ → Bool
in_range lo hi n = leb lo n && leb n hi

-- `c.isspace()`
unfoldable pub is_space : Char → Bool
is_space c =
    let n = code c in
    in_range 9 13 n
    || in_range 28 32 n
    || n == 133
    || n == 160
    || n == 5760
    || in_range 8192 8202 n
    || in_range 8232 8233 n
    || n == 8239
    || n == 8287
    || n == 12288

unfoldable pub lstrip : String → String
unfolding is_space
lstrip String.[] = String.[]
lstrip (String.◌∷◌ c s) = let rest = lstrip s in if is_space c then rest else String.◌∷◌ c s

abbrev is_empty : String → Bool
is_empty String.[] = true
is_empty (String.◌∷◌ _ _) = false

unfoldable pub rstrip : String → String
unfolding is_space
rstrip String.[] = String.[]
rstrip (String.◌∷◌ c s) =
    let rest = rstrip s in if is_space c && is_empty rest then String.[] else String.◌∷◌ c rest

unfoldable pub strip : String → String
unfolding lstrip rstrip
strip s = rstrip (lstrip s)

-- `s[:n]`
unfoldable pub prefix : ℕ → String → String
prefix zero s = String.[]
prefix (suc n) String.[] = String.[]
prefix (suc n) (String.◌∷◌ c s) = String.◌∷◌ c (prefix n s)

-- `c.upper()`; `wide` gives it for the characters beyond ASCII, of which some become two.
unfoldable pub upper_char : (Char → String) → Char → String
upper_char wide c =
    if in_range b'a' b'z' (code c)
    then String.◌∷◌ (char_at "ABCDEFGHIJKLMNOPQRSTUVWXYZ" (code c - b'a')) String.[]
    else if ltb (code c) 128
    then String.◌∷◌ c String.[]
    else wide c

unfoldable pub upper : (Char → String) → String → String
unfolding upper_char
upper wide String.[] = String.[]
upper wide (String.◌∷◌ c s) = upper_char wide c ++ upper wide s

-- `s.startswith(p)` and `p in s`.
unfoldable pub starts : String → String → Bool
starts String.[] s = true
starts (String.◌∷◌ p ps) String.[] = false
starts (String.◌∷◌ p ps) (String.◌∷◌ c s) = code p == code c && starts ps s

unfoldable pub occurs : String → String → Bool
unfolding starts
occurs p String.[] = starts p String.[]
occurs p (String.◌∷◌ c s) = starts p (String.◌∷◌ c s) || occurs p s
