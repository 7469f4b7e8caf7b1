-- ===== src/Logging/Scrub.antt =====
-- trade_post/core/logging_setup.py: how the text before and behind the first `=` fares in the loop
-- of `_scrub`.
use Prim.Native.Char.{Char, code}
use text.Mathlib.TextEquality.{Char-path}
use trade_post.Base.{
  ℕ, zero, suc, ◌≡◌, refl, ◌⊎◌, inl, inr, String, Bool, true, false, not, ◌&&◌, ◌==◌, arith, starts,
  Bool-cases, &&-true,
}
use trade_post.Logging.{join, redact, redact_behind, after_value, ends_value}
use trade_post.Logging.Narrow.{narrow_char, narrow_lower, narrow_token}

-- The texts are the same up to the first `=`, or throughout where there is none.
pub data Agree : String → String → Type 0 where
  done : Agree String.[] String.[]
  found :
      {c : Char} {s t : String} → (code c == b'=') ≡ true → Agree (String.◌∷◌ c s) (String.◌∷◌ c t)
  same : {c : Char} {s t : String} → Agree s t → Agree (String.◌∷◌ c s) (String.◌∷◌ c t)

Agree-refl : (s : String) → Agree s s
Agree-refl String.[] = done
Agree-refl (String.◌∷◌ c s) = same (Agree-refl s)

Agree-trans : {r s t : String} → Agree r s → Agree s t → Agree r t
Agree-trans done done = done
Agree-trans (found e) (found _) = found e
Agree-trans (found e) (same _) = found e
Agree-trans (same _) (found e) = found e
Agree-trans (same p) (same q) = same (Agree-trans p q)

pub redact-Agree : (s : String) → Agree s (redact s)
unfolding redact
redact-Agree String.[] = done
redact-Agree (String.◌∷◌ c s) = elim (Bool-cases (code c == b'=')) [
  | inl equals ↦ found equals
  | inr other ↦ rw (other, redact) (same (redact-Agree s))
]

-- A text without `=`.
unfoldable pub plain : String → Bool
plain String.[] = true
plain (String.◌∷◌ c s) = not (code c == b'=') && plain s

-- The value is over: the text is, or it goes on with a character that ends a value.
unfoldable pub ended : String → Bool
ended String.[] = true
ended (String.◌∷◌ c s) = ends_value c

pub ended-Agree : {s t : String} → Agree s t → ended s ≡ true → ended t ≡ true
unfolding ended
ended-Agree done h = h
ended-Agree (found e) h = h
ended-Agree (same a) h = h

ended-after_value : (s : String) → ended (after_value s) ≡ true
unfolding ended after_value
ended-after_value String.[] = refl
ended-after_value (String.◌∷◌ c s) = elim (Bool-cases (ends_value c)) [
  | inl ends ↦ rw (ends, after_value) ends
  | inr other ↦ rw (other, after_value) (ended-after_value s)
]

-- The text begins with the mark, and the value is over behind it.
unfoldable pub marked : String → String → Bool
unfolding ended
marked String.[] s = ended s
marked (String.◌∷◌ p ps) String.[] = false
marked (String.◌∷◌ p ps) (String.◌∷◌ c s) = code p == code c && marked ps s

-- What stands behind the mark.
pub marked-rest :
    (p s : String) → marked p s ≡ true → (t : String) × (s ≡ join p t) × (ended t ≡ true)
unfolding marked join
marked-rest String.[] s h = (s, refl, h)
marked-rest (String.◌∷◌ p ps) String.[] h = absurd (ground arith)
marked-rest (String.◌∷◌ p ps) (String.◌∷◌ c s) h =
    let both = &&-true {a = code p == code c} {b = marked ps s} h in
    let (t, e, over) = marked-rest ps s both.1 in (t, cc (Char-path p c (ground arith), e), over)

pub marked-join : (p t : String) → ended t ≡ true → marked p (join p t) ≡ true
unfolding marked join
marked-join String.[] t h = h
marked-join (String.◌∷◌ c p) t h = ground (arith, marked-join p t)

pub marked-after_value :
    (s : String) → marked "[REDACTED]" (join "[REDACTED]" (after_value s)) ≡ true
marked-after_value s = marked-join "[REDACTED]" (after_value s) (ended-after_value s)

module _ (wide : Char → Char) where
  -- The lower case of `=` is `=`.
  narrow_char-equals : (c : Char) → (code c == b'=') ≡ true → code (narrow_char wide c) ≡ b'='
  unfolding narrow_char
  narrow_char-equals c h = ground arith

  pub starts-Agree :
      (u : String) {s t : String}
      → plain u ≡ true
      → Agree s t
      → starts u (narrow_lower wide s) ≡ starts u (narrow_lower wide t)
  unfolding starts narrow_lower plain
  starts-Agree String.[] p h = refl
  starts-Agree (String.◌∷◌ d u) p done = refl
  starts-Agree (String.◌∷◌ d u) p (found {c} e) = ground (arith, narrow_char-equals c e)
  starts-Agree (String.◌∷◌ d u) p (same {c} {s} {t} h) = ground (
    arith,
    starts-Agree u {s = s} {t = t} (&&-true {a = not (code d == b'=')} {b = plain u} p).1 h,
  )

  -- One step of the loop: no match here, a match, and a match without fuel.
  pub narrow_token-miss :
      (fuel : ℕ) (token : String) (c : Char) (s : String)
      → starts token (narrow_lower wide (String.◌∷◌ c s)) ≡ false
      → narrow_token wide fuel token (String.◌∷◌ c s)
        ≡ String.◌∷◌ c (narrow_token wide fuel token s)
  unfolding narrow_token
  narrow_token-miss zero token c s h = ground arith
  narrow_token-miss (suc fuel) token c s h = ground arith

  pub narrow_token-hit :
      (fuel : ℕ) (token : String) (c : Char) (s : String)
      → starts token (narrow_lower wide (String.◌∷◌ c s)) ≡ true
      → narrow_token wide (suc fuel) token (String.◌∷◌ c s)
        ≡ String.◌∷◌ c (narrow_token wide fuel token (redact_behind c s))
  unfolding narrow_token
  narrow_token-hit fuel token c s h = ground arith

  pub narrow_token-out :
      (token : String) (c : Char) (s : String)
      → starts token (narrow_lower wide (String.◌∷◌ c s)) ≡ true
      → narrow_token wide zero token (String.◌∷◌ c s) ≡ String.◌∷◌ c s
  unfolding narrow_token
  narrow_token-out token c s h = ground arith

  pub Matches-cases :
      (token s : String)
      → (starts token (narrow_lower wide s) ≡ true) ⊎ (starts token (narrow_lower wide s) ≡ false)
  Matches-cases token s = Bool-cases (starts token (narrow_lower wide s))

  pub redact_behind-Agree :
      (c : Char) (s t : String)
      → Agree (redact_behind c s) t
      → Agree (String.◌∷◌ c s) (String.◌∷◌ c t)
  redact_behind-Agree c s t h = elim (Bool-cases (code c == b'=')) [
    | inl equals ↦ found equals
    | inr other ↦ same (Agree-trans (redact-Agree s) (rw other at h))
  ]

  pub narrow_token-Agree : (fuel : ℕ) (token s : String) → Agree s (narrow_token wide fuel token s)
  unfolding narrow_token
  narrow_token-Agree fuel token String.[] = done
  narrow_token-Agree zero token (String.◌∷◌ c s) = elim (Matches-cases token (String.◌∷◌ c s)) [
    | inl hit ↦ rw (narrow_token-out token c s hit) (Agree-refl (String.◌∷◌ c s))
    | inr miss ↦ rw (narrow_token-miss zero token c s miss) (same (narrow_token-Agree zero token s))
  ]
  narrow_token-Agree (suc fuel) token (String.◌∷◌ c s) =
      elim (Matches-cases token (String.◌∷◌ c s)) [
        | inl hit ↦
            rw (narrow_token-hit fuel token c s hit)
              (redact_behind-Agree c s _ (narrow_token-Agree fuel token (redact_behind c s)))
        | inr miss ↦
            rw (narrow_token-miss (suc fuel) token c s miss)
              (same (narrow_token-Agree (suc fuel) token s))
      ]
