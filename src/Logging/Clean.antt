-- ===== src/Logging/Clean.antt =====
-- trade_post/core/logging_setup.py: no value is left behind a forbidden name once `_scrub` has run.
use Prim.Native.Char.{Char, code}
use trade_post.Base.{
  ℕ, zero, suc, ◌≡◌, refl, inl, inr, String, Bool, true, false, not, ◌&&◌, ◌||◌, ◌==◌, arith,
  starts, Bool-cases, if_either, if◌then◌else◌, ap,
}
use trade_post.Logging.{join, redact, redact_behind, after_value}
use trade_post.Logging.Narrow.{narrow_lower, narrow_token}
use trade_post.Logging.Scrub.{
  Agree, plain, marked, marked-rest, marked-join, marked-after_value, ended-Agree, starts-Agree,
  narrow_token-miss, narrow_token-hit, narrow_token-Agree, narrow_token-out, Matches-cases,
}

-- What follows the first `=`, where there is one, is the mark, and the value is over behind it.
unfoldable pub hidden : String → Bool
unfolding marked
hidden String.[] = true
hidden (String.◌∷◌ c s) =
    let rest = hidden s in if code c == b'=' then marked "[REDACTED]" s else rest

hidden-redact : (s : String) → hidden (redact s) ≡ true
unfolding hidden redact
hidden-redact String.[] = refl
hidden-redact (String.◌∷◌ c s) = ground (arith, marked-after_value s, hidden-redact s)

hidden-other :
    (c : Char) (s : String) → (code c == b'=') ≡ false → hidden (String.◌∷◌ c s) ≡ hidden s
unfolding hidden
hidden-other c s other = ground arith

hidden-equals :
    (c : Char) (s : String)
    → (code c == b'=') ≡ true
    → hidden (String.◌∷◌ c s) ≡ marked "[REDACTED]" s
unfolding hidden
hidden-equals c s equals = ground arith

-- The text behind a character may change in what keeps the value hidden.
hidden-next :
    (c : Char) (s t : String)
    → hidden (String.◌∷◌ c s) ≡ true
    → (marked "[REDACTED]" s ≡ true → marked "[REDACTED]" t ≡ true)
    → (hidden s ≡ true → hidden t ≡ true)
    → hidden (String.◌∷◌ c t) ≡ true
hidden-next c s t h p q = elim (Bool-cases (code c == b'=')) [
  | inl equals ↦ rw (hidden-equals c t equals) (p (rw (hidden-equals c s equals) at h))
  | inr other ↦ rw (hidden-other c t other) (q (rw (hidden-other c s other) at h))
]

hidden-redact_behind : (c : Char) (s : String) → hidden (String.◌∷◌ c (redact_behind c s)) ≡ true
unfolding redact
hidden-redact_behind c s = hidden-redact (String.◌∷◌ c s)

next_place :
    (here there hid hid' rest rest' : Bool)
    → here ≡ there
    → ((not here || hid) && rest) ≡ true
    → (hid ≡ true → hid' ≡ true)
    → rest' ≡ true
    → ((not there || hid') && rest') ≡ true
next_place here there hid hid' rest rest' e h p k = ground arith

module _ (wide : Char → Char) where
  -- The value behind each place where the name stands is hidden.
  unfoldable pub clean : String → String → Bool
  unfolding hidden narrow_lower
  clean u String.[] = true
  clean u (String.◌∷◌ c s) =
      (not (starts u (narrow_lower wide (String.◌∷◌ c s))) || hidden (String.◌∷◌ c s)) && clean u s

  -- No match begins in the first text, when the second follows it.
  unfoldable pub quiet : String → String → String → Bool
  unfolding starts narrow_lower join
  quiet u String.[] t = true
  quiet u (String.◌∷◌ c p) t =
      not (starts u (narrow_lower wide (String.◌∷◌ c (join p t)))) && quiet u p t

  -- What holds of every forbidden name: it has no `=`, and no match of it touches the mark.
  pub record IsInert (u : String) : Type 0 where
    pub no_equals : plain u ≡ true
    pub no_match : (t : String) → quiet u "[REDACTED]" t ≡ true

  clean-quiet : (u p t : String) → quiet u p t ≡ true → clean u t ≡ true → clean u (join p t) ≡ true
  unfolding quiet clean join
  clean-quiet u String.[] t q h = h
  clean-quiet u (String.◌∷◌ c p) t q h = ground (arith, clean-quiet u p t)

  clean-after_value : (u s : String) → clean u s ≡ true → clean u (after_value s) ≡ true
  unfolding clean after_value
  clean-after_value u String.[] h = h
  clean-after_value u (String.◌∷◌ c s) h = ground (arith, clean-after_value u s)

  pub clean-hidden :
      (u : String) (c : Char) (s : String)
      → hidden (String.◌∷◌ c s) ≡ true
      → clean u s ≡ true
      → clean u (String.◌∷◌ c s) ≡ true
  unfolding clean
  clean-hidden u c s h k = ground arith

  clean-rest :
      (u : String) (c : Char) (s : String) → clean u (String.◌∷◌ c s) ≡ true → clean u s ≡ true
  unfolding clean
  clean-rest u c s h = ground arith

  clean-redact_behind :
      (u : String) (c : Char) (s : String)
      → IsInert u
      → clean u s ≡ true
      → clean u (redact s) ≡ true
      → clean u (redact_behind c s) ≡ true
  clean-redact_behind u c s i h k =
      if_either (λ t. clean u t ≡ true) (code c == b'=') _ _
        (clean-quiet u "[REDACTED]" _ (i.no_match (after_value s)) (clean-after_value u s h)) k

  clean-redact : (u s : String) → IsInert u → clean u s ≡ true → clean u (redact s) ≡ true
  unfolding redact
  clean-redact u String.[] i h = h
  clean-redact u (String.◌∷◌ c s) i h =
      let rest = clean-rest u c s h in
      clean-hidden u c (redact_behind c s) (hidden-redact (String.◌∷◌ c s))
        (clean-redact_behind u c s i rest (clean-redact u s i rest))

  narrow_token-quiet :
      (fuel : ℕ) (u p t : String)
      → quiet u p t ≡ true
      → narrow_token wide fuel u (join p t) ≡ join p (narrow_token wide fuel u t)
  unfolding quiet join
  narrow_token-quiet fuel u String.[] t q = refl
  narrow_token-quiet fuel u (String.◌∷◌ c p) t q =
      rw (narrow_token-miss wide fuel u c (join p t) (ground arith))
        (ap (String.◌∷◌ c) (narrow_token-quiet fuel u p t (ground arith)))

  -- The mark stays.
  marked-narrow_token :
      (fuel : ℕ) (u s : String)
      → IsInert u
      → marked "[REDACTED]" s ≡ true
      → marked "[REDACTED]" (narrow_token wide fuel u s) ≡ true
  marked-narrow_token fuel u s i h =
      let (t, e, over) = marked-rest "[REDACTED]" s h in
      rw (e, narrow_token-quiet fuel u "[REDACTED]" t (i.no_match t))
        (marked-join "[REDACTED]" _ (ended-Agree (narrow_token-Agree wide fuel u t) over))

  pub narrow_token-nil : (fuel : ℕ) (u : String) → narrow_token wide fuel u String.[] ≡ String.[]
  unfolding narrow_token
  narrow_token-nil fuel u = refl

  hidden-narrow_token :
      (fuel : ℕ) (u s : String)
      → IsInert u
      → hidden s ≡ true
      → hidden (narrow_token wide fuel u s) ≡ true
  hidden-narrow_token fuel u String.[] i h = rw (narrow_token-nil fuel u) h
  hidden-narrow_token zero u (String.◌∷◌ c s) i h = elim (Matches-cases wide u (String.◌∷◌ c s)) [
    | inl hit ↦ rw (narrow_token-out wide u c s hit) h
    | inr miss ↦
        rw (narrow_token-miss wide zero u c s miss)
          (hidden-next c s _ h (marked-narrow_token zero u s i) (hidden-narrow_token zero u s i))
  ]
  hidden-narrow_token (suc fuel) u (String.◌∷◌ c s) i h =
      elim (Matches-cases wide u (String.◌∷◌ c s)) [
        | inl hit ↦ rw (narrow_token-hit wide fuel u c s hit) (
            hidden-next c (redact_behind c s) _ (hidden-redact_behind c s)
              (marked-narrow_token fuel u _ i) (hidden-narrow_token fuel u (redact_behind c s) i))
        | inr miss ↦ rw (narrow_token-miss wide (suc fuel) u c s miss) (
            hidden-next c s _ h (marked-narrow_token (suc fuel) u s i)
              (hidden-narrow_token (suc fuel) u s i))
      ]

  pub hidden-hit :
      (fuel : ℕ) (u : String) (c : Char) (s : String)
      → IsInert u
      → hidden (String.◌∷◌ c (narrow_token wide fuel u (redact_behind c s))) ≡ true
  hidden-hit fuel u c s i =
      hidden-next c (redact_behind c s) _ (hidden-redact_behind c s)
        (marked-narrow_token fuel u _ i) (hidden-narrow_token fuel u (redact_behind c s) i)

  clean-next :
      (u : String) (c : Char) (s t : String)
      → IsInert u
      → Agree s t
      → clean u (String.◌∷◌ c s) ≡ true
      → (hidden (String.◌∷◌ c s) ≡ true → hidden (String.◌∷◌ c t) ≡ true)
      → clean u t ≡ true
      → clean u (String.◌∷◌ c t) ≡ true
  unfolding clean
  clean-next u c s t i a h p k =
      next_place _ _ _ _ _ _ (starts-Agree wide u i.no_equals (Agree.same {c = c} a)) h p k

  -- A step without a match.
  clean-moved :
      (fuel : ℕ) (v u : String) (c : Char) (s : String)
      → IsInert v
      → IsInert u
      → clean v (String.◌∷◌ c s) ≡ true
      → clean v (narrow_token wide fuel u s) ≡ true
      → clean v (String.◌∷◌ c (narrow_token wide fuel u s)) ≡ true
  clean-moved fuel v u c s j i h k =
      clean-next v c s _ j (narrow_token-Agree wide fuel u s) h
        (λ hid.
          hidden-next c s _ hid (marked-narrow_token fuel u s i) (hidden-narrow_token fuel u s i))
        k

  -- A pass for one name leaves no value behind another.
  pub clean-narrow_token :
      (fuel : ℕ) (v u s : String)
      → IsInert v
      → IsInert u
      → clean v s ≡ true
      → clean v (narrow_token wide fuel u s) ≡ true
  clean-narrow_token fuel v u String.[] j i h = rw (narrow_token-nil fuel u) h
  clean-narrow_token zero v u (String.◌∷◌ c s) j i h =
      elim (Matches-cases wide u (String.◌∷◌ c s)) [
        | inl hit ↦ rw (narrow_token-out wide u c s hit) h
        | inr miss ↦ rw (narrow_token-miss wide zero u c s miss) (
            clean-moved zero v u c s j i h (clean-narrow_token zero v u s j i (clean-rest v c s h)))
      ]
  clean-narrow_token (suc fuel) v u (String.◌∷◌ c s) j i h =
      elim (Matches-cases wide u (String.◌∷◌ c s)) [
        | inl hit ↦ rw (narrow_token-hit wide fuel u c s hit) (
            clean-hidden v c _ (hidden-hit fuel u c s i) (
              clean-narrow_token fuel v u (redact_behind c s) j i (
                clean-redact_behind v c s j (clean-rest v c s h)
                  (clean-redact v s j (clean-rest v c s h)))))
        | inr miss ↦ rw (narrow_token-miss wide (suc fuel) u c s miss) (
            clean-moved (suc fuel) v u c s j i h
              (clean-narrow_token (suc fuel) v u s j i (clean-rest v c s h)))
      ]
