-- ===== src/Logging/Passes.antt =====
-- trade_post/core/logging_setup.py: the loop of `_scrub` for one name has enough fuel, and the passes
-- for all names together.
use Prim.Native.Char.{Char, code}
use trade_post.Base.{
  ℕ, zero, suc, ◌≤◌, ◌≡◌, refl, inl, inr, String, true, false, ◌==◌, arith, starts, if_cases,
  if◌then◌else◌,
}
use trade_post.Logging.{join, redact, redact_behind, after_value, size}
use trade_post.Logging.Narrow.{narrow_lower, narrow_token}
use trade_post.Logging.Scrub.{
  Agree, redact-Agree, starts-Agree, narrow_token-miss, narrow_token-hit, narrow_token-Agree,
  Matches-cases,
}
use trade_post.Logging.Clean.{clean, quiet, IsInert, clean-hidden, hidden-hit, narrow_token-nil}

module _ (wide : Char → Char) where
  -- How often the name stands in the text.
  unfoldable pub places : String → String → ℕ
  unfolding starts narrow_lower
  places u String.[] = 0
  places u (String.◌∷◌ c s) =
      let rest = places u s in
      if starts u (narrow_lower wide (String.◌∷◌ c s)) then suc rest else rest

  pub places-size : (u s : String) → places u s ≤ size s
  unfolding places size
  places-size u String.[] = ground arith
  places-size u (String.◌∷◌ c s) = ground (arith, places-size u s)

  places-after_value : (u s : String) → places u (after_value s) ≤ places u s
  unfolding places after_value
  places-after_value u String.[] = ground arith
  places-after_value u (String.◌∷◌ c s) = ground (arith, places-after_value u s)

  places-quiet : (u p t : String) → quiet wide u p t ≡ true → places u (join p t) ≡ places u t
  unfolding places quiet join
  places-quiet u String.[] t q = refl
  places-quiet u (String.◌∷◌ c p) t q = ground (arith, places-quiet u p t)

  places-redact_behind :
      (u : String) (c : Char) (s : String)
      → IsInert wide u
      → places u (redact s) ≤ places u s
      → places u (redact_behind c s) ≤ places u s
  places-redact_behind u c s i k =
      if_cases (λ t. places u t ≤ places u s) (code c == b'=') _ _
        (λ _.
          rw (places-quiet u "[REDACTED]" _ (i.no_match (after_value s))) (places-after_value u s))
        (λ _. k)

  places-next :
      (u : String) (c : Char) (s t : String)
      → IsInert wide u
      → Agree (String.◌∷◌ c s) (String.◌∷◌ c t)
      → places u t ≤ places u s
      → places u (String.◌∷◌ c t) ≤ places u (String.◌∷◌ c s)
  unfolding places
  places-next u c s t i a h = let kept = starts-Agree wide u i.no_equals a in ground arith

  places-redact : (u s : String) → IsInert wide u → places u (redact s) ≤ places u s
  unfolding redact
  places-redact u String.[] i = ground arith
  places-redact u (String.◌∷◌ c s) i =
      places-next u c s (redact_behind c s) i (redact-Agree (String.◌∷◌ c s))
        (places-redact_behind u c s i (places-redact u s i))

  places-hit :
      (u : String) (c : Char) (s : String)
      → starts u (narrow_lower wide (String.◌∷◌ c s)) ≡ true
      → places u (String.◌∷◌ c s) ≡ suc (places u s)
  unfolding places
  places-hit u c s hit = ground arith

  places-miss :
      (u : String) (c : Char) (s : String)
      → starts u (narrow_lower wide (String.◌∷◌ c s)) ≡ false
      → places u (String.◌∷◌ c s) ≡ places u s
  unfolding places
  places-miss u c s miss = ground arith

  clean-miss :
      (u : String) (c : Char) (s t : String)
      → IsInert wide u
      → Agree s t
      → starts u (narrow_lower wide (String.◌∷◌ c s)) ≡ false
      → clean wide u t ≡ true
      → clean wide u (String.◌∷◌ c t) ≡ true
  unfolding clean
  clean-miss u c s t i a miss h =
      let kept = starts-Agree wide u i.no_equals (Agree.same {c = c} a) in ground arith

  -- As much fuel as there are places of the name leaves none of them with a value.
  pub narrow_token-clean :
      (fuel : ℕ) (u s : String)
      → IsInert wide u
      → places u s ≤ fuel
      → clean wide u (narrow_token wide fuel u s) ≡ true
  unfolding clean
  narrow_token-clean fuel u String.[] i h = rw (narrow_token-nil wide fuel u) refl
  narrow_token-clean zero u (String.◌∷◌ c s) i h = elim (Matches-cases wide u (String.◌∷◌ c s)) [
    | inl hit ↦ absurd (ground (arith, places-hit u c s hit))
    | inr miss ↦ rw (narrow_token-miss wide zero u c s miss) (
        clean-miss u c s _ i (narrow_token-Agree wide zero u s) miss
          (narrow_token-clean zero u s i (rw (places-miss u c s miss) at h)))
  ]
  narrow_token-clean (suc fuel) u (String.◌∷◌ c s) i h =
      elim (Matches-cases wide u (String.◌∷◌ c s)) [
        | inl hit ↦ rw (narrow_token-hit wide fuel u c s hit) (
            clean-hidden wide u c _ (hidden-hit wide fuel u c s i) (
              narrow_token-clean fuel u (redact_behind c s) i (
                ground (
                  arith,
                  places-hit u c s hit,
                  places-redact_behind u c s i (places-redact u s i),
                ))))
        | inr miss ↦ rw (narrow_token-miss wide (suc fuel) u c s miss) (
            clean-miss u c s _ i (narrow_token-Agree wide (suc fuel) u s) miss
              (narrow_token-clean (suc fuel) u s i (rw (places-miss u c s miss) at h)))
      ]
