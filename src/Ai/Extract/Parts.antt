-- ===== src/Ai/Extract/Parts.antt =====
-- A text that stands in another in one piece, and what `_extract_json` cuts out.
use Prim.Native.Char.{Char, code}
use trade_post.Base.{
  ◌≡◌, refl, subst, inl, inr, arith, String, Bool, true, false, ◌&&◌, Option, none, some, ◌==◌,
  lstrip, rstrip, strip, or_else, is_space, Bool-cases, if◌then◌else◌,
}
use trade_post.Ai.Extract.{
  from_brace, extend, through_brace, past, closes, body, block, fence_at, fence,
}

-- The first text is a beginning of the second.
pub data Begins : String → String → Type 0 where
  nothing : {s : String} → Begins String.[] s
  next : {c : Char} {t s : String} → Begins t s → Begins (String.◌∷◌ c t) (String.◌∷◌ c s)

-- The first text stands in the second, in one piece.
pub data IsPart : String → String → Type 0 where
  at_start : {t s : String} → Begins t s → IsPart t s
  later : {c : Char} {t s : String} → IsPart t s → IsPart t (String.◌∷◌ c s)

Begins-refl : (s : String) → Begins s s
Begins-refl String.[] = nothing
Begins-refl (String.◌∷◌ c s) = next (Begins-refl s)

Begins-trans : {r s t : String} → Begins r s → Begins s t → Begins r t
Begins-trans nothing q = nothing
Begins-trans (next p) (next q) = next (Begins-trans p q)

IsPart-refl : (s : String) → IsPart s s
IsPart-refl s = at_start (Begins-refl s)

pub IsPart-trans : {r s t : String} → IsPart r s → IsPart s t → IsPart r t
IsPart-trans p (later q) = later (IsPart-trans p q)
IsPart-trans (at_start p) (at_start q) = at_start (Begins-trans p q)
IsPart-trans (later p) (at_start (next q)) = later (IsPart-trans p (at_start q))

lstrip-IsPart : (s : String) → IsPart (lstrip s) s
unfolding lstrip
lstrip-IsPart String.[] = IsPart-refl String.[]
lstrip-IsPart (String.◌∷◌ c s) = elim (Bool-cases (is_space c)) [
  | inl space ↦ rw (space, lstrip) (later (lstrip-IsPart s))
  | inr other ↦ rw (other, lstrip) (IsPart-refl (String.◌∷◌ c s))
]

cut-Begins :
    {c : Char} {t s : String} (b : Bool)
    → Begins t s
    → Begins (if b then String.[] else String.◌∷◌ c t) (String.◌∷◌ c s)
cut-Begins true h = nothing
cut-Begins false h = next h

rstrip-Begins : (s : String) → Begins (rstrip s) s
unfolding rstrip
rstrip-Begins String.[] = nothing
rstrip-Begins (String.◌∷◌ c s) = cut-Begins _ (rstrip-Begins s)

strip-IsPart : (s : String) → IsPart (strip s) s
unfolding strip
strip-IsPart s = IsPart-trans (at_start (rstrip-Begins (lstrip s))) (lstrip-IsPart s)

pub from_brace-IsPart : (s t : String) → from_brace s ≡ some t → IsPart t s
unfolding from_brace
from_brace-IsPart String.[] t e = absurd (ground arith)
from_brace-IsPart (String.◌∷◌ c s) t e = elim (Bool-cases (code c == b'{')) [
  | inl brace ↦
      let same : String.◌∷◌ c s ≡ t = ground arith in
      subst (λ r. IsPart r (String.◌∷◌ c s)) same (IsPart-refl (String.◌∷◌ c s))
  | inr other ↦ later (from_brace-IsPart s t (ground arith))
]

cons-Begins :
    {c : Char} {s r : String} (t : String)
    → Begins r s
    → String.◌∷◌ c r ≡ t
    → Begins t (String.◌∷◌ c s)
cons-Begins {c} {s} t h same = subst (λ r. Begins r (String.◌∷◌ c s)) same (next h)

extend-Begins :
    (c : Char) (s t : String) (o : Option String)
    → ((r : String) → o ≡ some r → Begins r s)
    → extend c o ≡ some t
    → Begins t (String.◌∷◌ c s)
extend-Begins c s t none h e = absurd (ground arith)
extend-Begins c s t (some r) h e = cons-Begins t (h r refl) (ground arith)

pub through_brace-Begins : (s t : String) → through_brace s ≡ some t → Begins t s
unfolding through_brace
through_brace-Begins String.[] t e = absurd (ground arith)
through_brace-Begins (String.◌∷◌ c s) t e = at (through_brace s) refl (through_brace-Begins s)
  where
    at :
        (o : Option String)
        → through_brace s ≡ o
        → ((r : String) → through_brace s ≡ some r → Begins r s)
        → Begins t (String.◌∷◌ c s)
    at (some r) h rest = cons-Begins t (rest r h) (ground arith)
    at none h rest = cons-Begins t nothing (ground arith)

past-IsPart : (p s t : String) → past p s ≡ some t → IsPart t s
unfolding past
past-IsPart String.[] s t e = subst (λ r. IsPart r s) (ground arith) (IsPart-refl s)
past-IsPart (String.◌∷◌ c p) String.[] t e = absurd (ground arith)
past-IsPart (String.◌∷◌ c p) (String.◌∷◌ d s) t e = later (past-IsPart p s t (ground arith))

body-Begins : (s t : String) → body s ≡ some t → Begins t s
unfolding body
body-Begins String.[] t e = absurd (ground arith)
body-Begins (String.◌∷◌ c s) t e = elim (Bool-cases (code c == b'}' && closes s)) [
  | inl ends ↦ cons-Begins t nothing (ground arith)
  | inr goes_on ↦ extend-Begins c s t (body s) (body-Begins s) (ground arith)
]

block-Begins : (s t : String) → block s ≡ some t → Begins t s
unfolding block
block-Begins String.[] t e = absurd (ground arith)
block-Begins (String.◌∷◌ c s) t e = elim (Bool-cases (code c == b'{')) [
  | inr other ↦ absurd (ground arith)
  | inl brace ↦ extend-Begins c s t (body s) (body-Begins s) (ground arith)
]

or_else-IsPart :
    (r : String) (o : Option String)
    → ((t : String) → o ≡ some t → IsPart t r)
    → IsPart (or_else o r) r
or_else-IsPart r none h = IsPart-refl r
or_else-IsPart r (some t) h = h t refl

fence_at-IsPart : (s t : String) → fence_at s ≡ some t → IsPart t s
unfolding fence_at
fence_at-IsPart s t e = at (past "```" s) refl
  where
    at : (o : Option String) → past "```" s ≡ o → IsPart t s
    at none h = absurd (ground arith)
    at (some r) h =
        let inner = or_else (past "json" r) r in
        IsPart-trans
          (IsPart-trans
            (IsPart-trans (at_start (block-Begins (lstrip inner) t (ground arith)))
              (lstrip-IsPart inner))
            (or_else-IsPart r (past "json" r) (past-IsPart "json" r)))
          (past-IsPart "```" s r h)

fence-IsPart : (s t : String) → fence s ≡ some t → IsPart t s
unfolding fence
fence-IsPart String.[] t e = absurd (ground arith)
fence-IsPart (String.◌∷◌ c s) t e = at (fence_at (String.◌∷◌ c s)) refl (fence-IsPart s t)
  where
    at :
        (o : Option String)
        → fence_at (String.◌∷◌ c s) ≡ o
        → (fence s ≡ some t → IsPart t s)
        → IsPart t (String.◌∷◌ c s)
    at (some r) h rest = fence_at-IsPart (String.◌∷◌ c s) t (ground arith)
    at none h rest = later (rest (ground arith))

pub unwrapped-IsPart : (text : String) → IsPart (or_else (fence (strip text)) (strip text)) text
unwrapped-IsPart text =
    IsPart-trans (or_else-IsPart (strip text) (fence (strip text)) (fence-IsPart (strip text)))
      (strip-IsPart text)
