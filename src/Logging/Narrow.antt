-- ===== src/Logging/Narrow.antt =====
-- trade_post/core/logging_setup.py: `_scrub` for texts that are as long in lower case, where the index
-- into the text in lower case is the one into the text.
use Prim.Native.Char.{Char, code}
use Prim.Native.String.{char_at}
use trade_post.Base.{
  ℕ, zero, suc, ◌-◌, String, ◌&&◌, List, [], ◌∷◌, leb, ltb, starts, if◌then◌else◌,
}
use trade_post.Logging.{forbidden_substrings, redact, redact_behind, size}

module _ (wide : Char → Char) where
  unfoldable pub narrow_char : Char → Char
  narrow_char c =
      if leb b'A' (code c) && leb (code c) b'Z'
      then char_at "abcdefghijklmnopqrstuvwxyz" (code c - b'A')
      else if ltb (code c) 128
      then c
      else wide c

  unfoldable pub narrow_lower : String → String
  unfolding narrow_char
  narrow_lower String.[] = String.[]
  narrow_lower (String.◌∷◌ c s) = String.◌∷◌ (narrow_char c) (narrow_lower s)

  -- The search for the token moves the index over the text, which is the text from the index on
  -- here: what stands before the index never changes. Each match takes one unit of fuel.
  unfoldable pub narrow_token : ℕ → String → String → String
  unfolding narrow_lower redact
  narrow_token fuel token String.[] = String.[]
  narrow_token zero token (String.◌∷◌ c s) =
      let moved = narrow_token zero token s in
      String.◌∷◌ c (if starts token (narrow_lower (String.◌∷◌ c s)) then s else moved)
  narrow_token (suc fuel) token (String.◌∷◌ c s) =
      let redacted = narrow_token fuel token (redact_behind c s) in
      let moved = narrow_token (suc fuel) token s in
      String.◌∷◌ c (if starts token (narrow_lower (String.◌∷◌ c s)) then redacted else moved)

  unfoldable pub narrow_each : List String → String → String
  unfolding narrow_token size
  narrow_each [] value = value
  narrow_each (token ∷ tokens) value = narrow_each tokens (narrow_token (size value) token value)

  unfoldable pub narrow_scrub : String → String
  unfolding narrow_each
  narrow_scrub value = narrow_each forbidden_substrings value
