-- ===== src/Logging/Same.antt =====
-- trade_post/core/logging_setup.py: on a text whose characters have a lower case of one character,
-- `_scrub` is what Logging/Narrow has.
use Prim.Native.Char.{Char, code}
use trade_post.Base.{
  ℕ, zero, suc, ◌≡◌, refl, ap, String, List, [], ◌∷◌, ◌==◌, if_either, if◌then◌else◌,
}
use trade_post.Logging.{
  forbidden_substrings, redact, redact_behind, after_value, join, size, lower_char, lower_more,
  lower, shifted, scrub_token, scrub_each, scrub,
}
use trade_post.Logging.Narrow.{narrow_char, narrow_lower, narrow_token, narrow_each, narrow_scrub}

module _ (wide : Char → Char × String) where
  -- Every character has a lower case of one character.
  abbrev pub IsNarrow : String → Type 0
  IsNarrow String.[] = Unit {0}
  IsNarrow (String.◌∷◌ c s) = (lower_more wide c ≡ String.[]) × IsNarrow s

  abbrev pub first : Char → Char
  first c = (wide c).0

  pub lower-narrow : (s : String) → IsNarrow s → lower wide s ≡ narrow_lower first s
  unfolding lower narrow_lower lower_char narrow_char join
  lower-narrow String.[] h = refl
  lower-narrow (String.◌∷◌ c s) h =
      rw h.0 (ap (String.◌∷◌ (narrow_char first c)) (lower-narrow s h.1))

  join-IsNarrow : (s t : String) → IsNarrow s → IsNarrow t → IsNarrow (join s t)
  unfolding join
  join-IsNarrow String.[] t h k = k
  join-IsNarrow (String.◌∷◌ c s) t h k = (h.0, join-IsNarrow s t h.1 k)

  after_value-IsNarrow : (s : String) → IsNarrow s → IsNarrow (after_value s)
  unfolding after_value
  after_value-IsNarrow String.[] h = h
  after_value-IsNarrow (String.◌∷◌ c s) h =
      if_either IsNarrow _ (String.◌∷◌ c s) (after_value s) h (after_value-IsNarrow s h.1)

  mark-IsNarrow : IsNarrow "[REDACTED]"
  unfolding lower_more
  mark-IsNarrow = (refl, (refl, (refl, (refl, (refl, (refl, (refl, (refl, (refl, (refl, tt))))))))))

  marked-IsNarrow :
      (c : Char) (s t : String)
      → IsNarrow s
      → IsNarrow t
      → IsNarrow (if code c == b'=' then join "[REDACTED]" (after_value s) else t)
  marked-IsNarrow c s t h k =
      if_either IsNarrow (code c == b'=') (join "[REDACTED]" (after_value s)) t
        (join-IsNarrow "[REDACTED]" (after_value s) mark-IsNarrow (after_value-IsNarrow s h)) k

  redact-IsNarrow : (s : String) → IsNarrow s → IsNarrow (redact s)
  unfolding redact
  redact-IsNarrow String.[] h = h
  redact-IsNarrow (String.◌∷◌ c s) h =
      (h.0, marked-IsNarrow c s (redact s) h.1 (redact-IsNarrow s h.1))

  redact_behind-IsNarrow : (c : Char) (s : String) → IsNarrow s → IsNarrow (redact_behind c s)
  redact_behind-IsNarrow c s h = marked-IsNarrow c s (redact s) h (redact-IsNarrow s h)

  narrow_token-IsNarrow :
      (fuel : ℕ) (token s : String) → IsNarrow s → IsNarrow (narrow_token first fuel token s)
  unfolding narrow_token
  narrow_token-IsNarrow fuel token String.[] h = h
  narrow_token-IsNarrow zero token (String.◌∷◌ c s) h =
      (h.0, if_either IsNarrow _ s _ h.1 (narrow_token-IsNarrow zero token s h.1))
  narrow_token-IsNarrow (suc fuel) token (String.◌∷◌ c s) h = (
    h.0,
    if_either IsNarrow _ _ _
        (narrow_token-IsNarrow fuel token (redact_behind c s) (redact_behind-IsNarrow c s h.1))
        (narrow_token-IsNarrow (suc fuel) token s h.1),
  )

  scrub_token-narrow :
      (fuel : ℕ) (token s : String)
      → IsNarrow s
      → scrub_token wide fuel token String.[] s ≡ narrow_token first fuel token s
  unfolding scrub_token narrow_token shifted join
  scrub_token-narrow fuel token String.[] h = refl
  scrub_token-narrow zero token (String.◌∷◌ c s) h =
      rw (lower-narrow (String.◌∷◌ c s) h, h.0, scrub_token-narrow zero token s h.1) refl
  scrub_token-narrow (suc fuel) token (String.◌∷◌ c s) h =
      rw
        (
          lower-narrow (String.◌∷◌ c s) h,
          h.0,
          scrub_token-narrow fuel token (redact_behind c s) (redact_behind-IsNarrow c s h.1),
          scrub_token-narrow (suc fuel) token s h.1,
        )
        refl

  size-narrow_lower : (s : String) → size (narrow_lower first s) ≡ size s
  unfolding size narrow_lower
  size-narrow_lower String.[] = refl
  size-narrow_lower (String.◌∷◌ c s) = ap suc (size-narrow_lower s)

  scrub_each-narrow :
      (us : List String) (s : String) → IsNarrow s → scrub_each wide us s ≡ narrow_each first us s
  unfolding scrub_each narrow_each
  scrub_each-narrow [] s h = refl
  scrub_each-narrow (u ∷ us) s h =
      rw (lower-narrow s h, size-narrow_lower s, scrub_token-narrow (size s) u s h)
        (scrub_each-narrow us (narrow_token first (size s) u s)
          (narrow_token-IsNarrow (size s) u s h))

  pub scrub-narrow : (s : String) → IsNarrow s → scrub wide s ≡ narrow_scrub first s
  unfolding scrub narrow_scrub
  scrub-narrow s h = scrub_each-narrow forbidden_substrings s h
