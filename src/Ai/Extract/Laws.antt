-- ===== src/Ai/Extract/Laws.antt =====
-- What is parsed is a part of the text, from a brace to a brace.
use Prim.Native.Char.{Char, code}
use trade_post.Base.{
  ℕ, ◌≡◌, refl, subst, inl, inr, arith, String, Bool, true, false, ◌||◌, Option, none, some, ◌==◌,
  str_eq, eq_iff, lstrip, rstrip, strip, or_else, Bool-cases,
}
use trade_post.Config.{is_true_text}
use trade_post.Ai.Extract.{from_brace, through_brace, past, fence_at, fence, extract_json}
use trade_post.Ai.Extract.Parts.{
  IsPart, at_start, IsPart-trans, from_brace-IsPart, through_brace-Begins, unwrapped-IsPart,
}

-- The text is an object's by its braces: it begins with the one and ends with the other.
abbrev pub ends_with : ℕ → String → Bool
ends_with n String.[] = false
ends_with n (String.◌∷◌ c String.[]) = code c == n
ends_with n (String.◌∷◌ c (String.◌∷◌ d s)) = ends_with n (String.◌∷◌ d s)

abbrev pub begins_with : ℕ → String → Bool
begins_with n String.[] = false
begins_with n (String.◌∷◌ c s) = code c == n

from_brace_begins : (s t : String) → from_brace s ≡ some t → begins_with b'{' t ≡ true
unfolding from_brace
from_brace_begins String.[] t e = absurd (ground arith)
from_brace_begins (String.◌∷◌ c s) t e = elim (Bool-cases (code c == b'{')) [
  | inl brace ↦
      let same : String.◌∷◌ c s ≡ t = ground arith in
      subst (λ r. begins_with b'{' r ≡ true) same brace
  | inr other ↦ from_brace_begins s t (ground arith)
]

ends_with-cons :
    (n : ℕ) (c : Char) (s : String) → ends_with n s ≡ true → ends_with n (String.◌∷◌ c s) ≡ true
ends_with-cons n c String.[] h = absurd (ground arith)
ends_with-cons n c (String.◌∷◌ d s) h = h

through_brace_begins :
    (s t : String)
    → begins_with b'{' s ≡ true
    → through_brace s ≡ some t
    → begins_with b'{' t ≡ true
unfolding through_brace
through_brace_begins String.[] t h e = absurd (ground arith)
through_brace_begins (String.◌∷◌ c s) t h e = at (through_brace s) refl
  where
    at : (o : Option String) → through_brace s ≡ o → begins_with b'{' t ≡ true
    at none k =
        let same : String.◌∷◌ c String.[] ≡ t = ground arith in
        subst (λ r. begins_with b'{' r ≡ true) same h
    at (some r) k =
        let same : String.◌∷◌ c r ≡ t = ground arith in
        subst (λ r. begins_with b'{' r ≡ true) same h

through_brace_ends : (s t : String) → through_brace s ≡ some t → ends_with b'}' t ≡ true
unfolding through_brace
through_brace_ends String.[] t e = absurd (ground arith)
through_brace_ends (String.◌∷◌ c s) t e = at (through_brace s) refl (through_brace_ends s)
  where
    at :
        (o : Option String)
        → through_brace s ≡ o
        → ((r : String) → through_brace s ≡ some r → ends_with b'}' r ≡ true)
        → ends_with b'}' t ≡ true
    at none k rest =
        let same : String.◌∷◌ c String.[] ≡ t = ground arith in
        subst (λ r. ends_with b'}' r ≡ true) same (ground arith)
    at (some r) k rest =
        let same : String.◌∷◌ c r ≡ t = ground arith in
        subst (λ r. ends_with b'}' r ≡ true) same (ends_with-cons b'}' c r (rest r k))

through_whole : (s : String) → ends_with b'}' s ≡ true → through_brace s ≡ some s
unfolding through_brace
through_whole String.[] h = absurd (ground arith)
through_whole (String.◌∷◌ c String.[]) h = ground arith
through_whole (String.◌∷◌ c (String.◌∷◌ d s)) h =
    let rest = through_whole (String.◌∷◌ d s) h in ground (arith, rest)

from_brace_whole : (s : String) → begins_with b'{' s ≡ true → from_brace s ≡ some s
unfolding from_brace
from_brace_whole String.[] h = absurd (ground arith)
from_brace_whole (String.◌∷◌ c s) h = ground arith

given : (text : String) → begins_with b'{' (strip text) ≡ true → is_true_text text ≡ true
unfolding strip lstrip rstrip
given text begins = elim (Bool-cases (str_eq text "")) [
  | inr other ↦ rw other refl
  | inl empty ↦
      let same : text ≡ "" = (eq_iff text "").0 empty in
      absurd (cc (subst (λ r. begins_with b'{' (strip r) ≡ true) same begins))
]

abbrev pub has_tick : String → Bool
has_tick String.[] = false
has_tick (String.◌∷◌ c s) = code c == b'`' || has_tick s

fence-none : (s : String) → has_tick s ≡ false → fence s ≡ none
unfolding fence fence_at past
fence-none String.[] h = refl
fence-none (String.◌∷◌ c s) h = ground (arith, fence-none s)

-- A text that stands in another in one piece, begins with an opening brace and ends with a closing one.
pub record IsObjectIn (t text : String) : Type 0 where
  pub part : IsPart t text
  pub begins : begins_with b'{' t ≡ true
  pub ends : ends_with b'}' t ≡ true

through_brace-IsObjectIn :
    (text s t : String)
    → from_brace (or_else (fence (strip text)) (strip text)) ≡ some s
    → through_brace s ≡ some t
    → IsObjectIn t text
through_brace-IsObjectIn text s t h k = record {
  part =
      IsPart-trans (at_start (through_brace-Begins s t k))
        (IsPart-trans (from_brace-IsPart _ s h) (unwrapped-IsPart text));
  begins = through_brace_begins s t (from_brace_begins _ s h) k;
  ends = through_brace_ends s t k;
}

module _ {A : Type 0} (loads : String → Option A) where
  -- What `_extract_json` returns is what the parser makes of a text that stands in one piece in the
  -- text of the language model, begins with an opening brace and ends with a closing one, whether or
  -- not it is fenced.
  pub extract_json-IsObjectIn :
      (text : String) (a : A)
      → extract_json loads text ≡ some a
      → (t : String) × (loads t ≡ some a) × IsObjectIn t text
  unfolding extract_json
  extract_json-IsObjectIn text a e =
      found (from_brace (or_else (fence (strip text)) (strip text))) refl
    where
      cut :
          (s : String)
          → from_brace (or_else (fence (strip text)) (strip text)) ≡ some s
          → (o : Option String) → through_brace s ≡ o
          → (t : String) × (loads t ≡ some a) × IsObjectIn t text
      cut s h none k = absurd (ground arith)
      cut s h (some t) k = (t, ground arith, through_brace-IsObjectIn text s t h k)

      found :
          (o : Option String)
          → from_brace (or_else (fence (strip text)) (strip text)) ≡ o
          → (t : String) × (loads t ≡ some a) × IsObjectIn t text
      found none h = absurd (ground arith)
      found (some s) h = cut s h (through_brace s) refl

  -- An answer without backticks that, white space around it aside, begins with an opening brace and
  -- ends with a closing one is parsed as a whole.
  pub extract_json_plain :
      (text : String)
      → has_tick (strip text) ≡ false
      → begins_with b'{' (strip text) ≡ true
      → ends_with b'}' (strip text) ≡ true
      → extract_json loads text ≡ loads (strip text)
  unfolding extract_json
  extract_json_plain text h begins ends =
      let found = from_brace_whole (strip text) begins in
      let whole = through_whole (strip text) ends in
      ground (arith, fence-none (strip text) h, found, whole, given text begins)
