-- ===== src/Ai/Extract.antt =====
-- trade_post/ai/ollama.py: `_extract_json`. `loads` is `json.loads`, with none for its decode error.
pub mod Parts
pub mod Laws
use Prim.Native.Char.{Char, code}
use trade_post.Base.{
  ℕ, String, Bool, true, false, ◌&&◌, Option, none, some, ◌==◌, is_some, lstrip, strip, or_else,
  if◌then◌else◌,
}
use trade_post.Config.{is_true_text}

-- `s[s.find("{"):]`, where there is one.
unfoldable pub from_brace : String → Option String
from_brace String.[] = none
from_brace (String.◌∷◌ c s) =
    let rest = from_brace s in if code c == b'{' then some (String.◌∷◌ c s) else rest

abbrev pub extend : Char → Option String → Option String
extend c none = none
extend c (some t) = some (String.◌∷◌ c t)

-- `s[: s.rfind("}") + 1]`, where there is one.
unfoldable pub through_brace : String → Option String
through_brace String.[] = none
through_brace (String.◌∷◌ c s) = elim (through_brace s) [
  | some t ↦ some (String.◌∷◌ c t)
  | none ↦ if code c == b'}' then some (String.◌∷◌ c String.[]) else none
]

-- What follows a beginning.
unfoldable pub past : String → String → Option String
past String.[] s = some s
past (String.◌∷◌ p ps) String.[] = none
past (String.◌∷◌ p ps) (String.◌∷◌ c s) =
    let rest = past ps s in if code p == code c then rest else none

-- White space, and the ticks that close the fence.
unfoldable pub closes : String → Bool
unfolding past
closes s = is_some (past "```" (lstrip s))

-- `.*?\}`, as short as what closes the fence allows.
unfoldable pub body : String → Option String
unfolding closes
body String.[] = none
body (String.◌∷◌ c s) =
    let rest = body s in
    if code c == b'}' && closes s then some (String.◌∷◌ c String.[]) else extend c rest

-- `\{.*?\}`
unfoldable pub block : String → Option String
unfolding body
block String.[] = none
block (String.◌∷◌ c s) = if code c == b'{' then extend c (body s) else none

-- A match of the fence at the beginning, and its group. The text after the ticks can open the block
-- in one way only.
unfoldable pub fence_at : String → Option String
unfolding block past
fence_at s = elim (past "```" s) [
  | none ↦ none
  | some r ↦ block (lstrip (or_else (past "json" r) r))
]

-- `re.search`, and the group of the match.
unfoldable pub fence : String → Option String
fence String.[] = none
fence (String.◌∷◌ c s) = elim (fence_at (String.◌∷◌ c s)) [ some b ↦ some b | none ↦ fence s ]

module _ {A : Type 0} (loads : String → Option A) where
  unfoldable pub extract_json : String → Option A
  unfolding fence from_brace through_brace
  extract_json text =
      if is_true_text text
      then elim (from_brace (or_else (fence (strip text)) (strip text))) [
        | none ↦ none
        | some s ↦ elim (through_brace s) [ none ↦ none | some t ↦ loads t ]
      ]
      else none
