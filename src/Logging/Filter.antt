-- ===== src/Logging/Filter.antt =====
-- trade_post/core/logging_setup.py: what `SecretScrubbingFilter` lets through.
use Prim.Native.Char.{Char}
use trade_post.Base.{
  ◌≡◌, refl, inl, inr, ◌⊎◌, String, Bool, true, false, ◌&&◌, arith, occurs, any_of, Bool-cases,
  Option-cases, List, [], ◌∷◌, none, some,
}
use trade_post.Logging.{
  lower, scrub, forbidden_substrings, size, LogRecord, Rendering, text, get_message, filter,
  is_suspicious,
}
use trade_post.Logging.Narrow.{narrow_lower, narrow_char, narrow_token, narrow_each, narrow_scrub}
use trade_post.Logging.Same.{IsNarrow, first, lower-narrow, scrub-narrow}
use trade_post.Logging.Clean.{clean, quiet, hidden, IsInert, clean-narrow_token}
use trade_post.Logging.Scrub.{plain}
use trade_post.Logging.Passes.{narrow_token-clean, places-size}

module _ (wide : Char → Char) where
  pub data AllInert : List String → Type 0 where
    none_left : AllInert []
    one : {u : String} {us : List String} → IsInert wide u → AllInert us → AllInert (u ∷ us)

  inert :
      (u : String)
      → plain u ≡ true
      → ((t : String) → quiet wide u "[REDACTED]" t ≡ true)
      → IsInert wide u
  inert u p q = record { no_equals = p; no_match = q }

  forbidden-AllInert : AllInert forbidden_substrings
  unfolding plain quiet
  forbidden-AllInert = one (inert _ refl (λ t. refl)) (
      one (inert _ refl (λ t. refl)) (
        one (inert _ refl (λ t. refl)) (
          one (inert _ refl (λ t. refl)) (
            one (inert _ refl (λ t. refl)) (
              one (inert _ refl (λ t. refl)) (
                one (inert _ refl (λ t. refl))
                  (one (inert _ refl (λ t. refl)) (one (inert _ refl (λ t. refl)) none_left))))))))

  clean-narrow_each :
      (v : String) (us : List String) (s : String)
      → IsInert wide v
      → AllInert us
      → clean wide v s ≡ true
      → clean wide v (narrow_each wide us s) ≡ true
  unfolding narrow_each
  clean-narrow_each v [] s j all h = h
  clean-narrow_each v (u ∷ us) s j (one i all) h =
      clean-narrow_each v us _ j all (clean-narrow_token wide (size s) v u s j i h)

  -- No forbidden name is left with a value behind it.
  unfoldable pub all_clean : List String → String → Bool
  unfolding clean
  all_clean [] s = true
  all_clean (u ∷ us) s = clean wide u s && all_clean us s

  narrow_each-clean :
      (us : List String) (s : String) → AllInert us → all_clean us (narrow_each wide us s) ≡ true
  unfolding all_clean narrow_each
  narrow_each-clean [] s all = refl
  narrow_each-clean (u ∷ us) s (one i all) =
      let own = narrow_token-clean wide (size s) u s i (places-size wide u s) in
      ground (
        arith,
        clean-narrow_each u us _ i all own,
        narrow_each-clean us (narrow_token wide (size s) u s) all,
      )

  pub narrow_scrub-clean :
      (s : String) → all_clean forbidden_substrings (narrow_scrub wide s) ≡ true
  unfolding narrow_scrub
  narrow_scrub-clean s = narrow_each-clean forbidden_substrings s forbidden-AllInert

  clean-absent : (u s : String) → occurs u (narrow_lower wide s) ≡ false → clean wide u s ≡ true
  unfolding clean occurs
  clean-absent u String.[] h = refl
  clean-absent u (String.◌∷◌ c s) h = ground (arith, clean-absent u s)

  hidden-absent : (s : String) → occurs "=" (narrow_lower wide s) ≡ false → hidden s ≡ true
  unfolding hidden occurs narrow_lower narrow_char
  hidden-absent String.[] h = refl
  hidden-absent (String.◌∷◌ c s) h = ground (arith, hidden-absent s)

  clean-no_equals :
      (u s : String) → occurs "=" (narrow_lower wide s) ≡ false → clean wide u s ≡ true
  unfolding clean occurs
  clean-no_equals u String.[] h = refl
  clean-no_equals u (String.◌∷◌ c s) h =
      ground (arith, hidden-absent (String.◌∷◌ c s) h, clean-no_equals u s)

  pub all_clean-harmless :
      (us : List String) (s : String)
      → any_of (λ u. occurs u (narrow_lower wide s) && occurs "=" (narrow_lower wide s)) us ≡ false
      → all_clean us s ≡ true
  unfolding all_clean any_of
  all_clean-harmless [] s h = refl
  all_clean-harmless (u ∷ us) s h =
      ground (arith, clean-absent u s, clean-no_equals u s, all_clean-harmless us s)

module _ (wide : Char → Char × String) {O A : Type 0} (r : Rendering O A) where
  filter-none : (entry : LogRecord O A) → get_message r entry ≡ none → filter wide r entry ≡ entry
  unfolding filter
  filter-none entry h = rw (h, filter) refl

  filter-kept :
      (entry : LogRecord O A) (m : String)
      → get_message r entry ≡ some m
      → is_suspicious (lower wide m) ≡ false
      → filter wide r entry ≡ entry
  unfolding filter
  filter-kept entry m h k = rw (h, filter, k) refl

  filter-scrubbed :
      (entry : LogRecord O A) (m s : String)
      → get_message r entry ≡ some m
      → is_suspicious (lower wide m) ≡ true
      → entry.msg ≡ text s
      → get_message r (filter wide r entry) ≡ some (scrub wide s)
  unfolding filter get_message
  filter-scrubbed entry m s h k e = rw (h, filter, k, e) refl

  -- A record whose message is a text; every character of the text, and of the message that it renders to,
  -- if it does, has a lower case of one character (all characters but U+0130 do). For any rendering of
  -- the arguments, either the message that is written behind the filter cannot be rendered, or at every
  -- place of every forbidden name in it, with each character in lower case, the value behind the next
  -- equals sign, if there is one, is the mark of a redaction and nothing else, up to the end of the text
  -- or a character that ends a value.
  pub filter_hides :
      (entry : LogRecord O A) (s : String)
      → entry.msg ≡ text s
      → IsNarrow wide s
      → ((m : String) → get_message r entry ≡ some m → IsNarrow wide m)
      → (get_message r (filter wide r entry) ≡ none)
        ⊎ ((m : String) × (get_message r (filter wide r entry) ≡ some m)
            × (all_clean (first wide) forbidden_substrings m ≡ true))
  filter_hides entry s e h rendered = elim (Option-cases (get_message r entry)) [
    | inl unreadable ↦ inl (rw (filter-none entry unreadable) unreadable)
    | inr (m, shown) ↦ elim (Bool-cases (is_suspicious (lower wide m))) [
      | inl marked ↦ inr (
        scrub wide s,
        filter-scrubbed entry m s shown marked e,
        rw (scrub-narrow wide s h) (narrow_scrub-clean (first wide) s),
      )
      | inr harmless ↦ inr (
        m,
        rw (filter-kept entry m shown harmless) shown,
        all_clean-harmless (first wide) forbidden_substrings m
            (rw (lower-narrow wide m (rendered m shown)) at harmless),
      )
    ]
  ]
