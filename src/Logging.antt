-- ===== src/Logging.antt =====
-- trade_post/core/logging_setup.py: what a record of the log goes through before it is written.
-- `wide` is the lower case of the characters beyond ASCII.
pub mod Narrow
pub mod Same
pub mod Scrub
pub mod Clean
pub mod Passes
pub mod Filter
mod Tests
use Prim.Native.Char.{Char, code}
use Prim.Native.String.{char_at}
use trade_post.Base.{
  ℕ, zero, suc, ◌+◌, ◌-◌, String, Bool, true, false, not, ◌&&◌, ◌||◌, Option, none, some, List, [],
  ◌∷◌, ◌++◌, ◌==◌, leb, ltb, any_of, starts, occurs, or_else, if◌then◌else◌,
}
use trade_post.Config.{Settings, LogLevel, is_true_text}

abbrev pub forbidden_substrings : List String
forbidden_substrings =
    "api_key" ∷ "api-key" ∷ "apikey" ∷ "secret" ∷ "password" ∷ "passwd" ∷ "token" ∷ "authorization"
    ∷ "bearer" ∷ []

-- The characters that end a value.
abbrev pub ends_value : Char → Bool
ends_value c =
    let n = code c in n == 32 || n == 44 || n == 10 || n == 9 || n == 41 || n == 93 || n == 125

-- `s + t`
unfoldable pub join : String → String → String
join String.[] t = t
join (String.◌∷◌ c s) t = String.◌∷◌ c (join s t)

-- `value[end:]`: the text from the first character that ends the value.
unfoldable pub after_value : String → String
after_value String.[] = String.[]
after_value (String.◌∷◌ c s) =
    let rest = after_value s in if ends_value c then String.◌∷◌ c s else rest

-- The body of the loop under `eq != -1`, on the text from the index on: what follows the first `=`
-- is replaced. Without one the text stays.
unfoldable pub redact : String → String
unfolding after_value join
redact String.[] = String.[]
redact (String.◌∷◌ c s) =
    let rest = redact s in
    String.◌∷◌ c (if code c == b'=' then join "[REDACTED]" (after_value s) else rest)

-- The text behind the first character of `redact`.
abbrev pub redact_behind : Char → String → String
redact_behind c s = if code c == b'=' then join "[REDACTED]" (after_value s) else redact s

-- `len(s)`
unfoldable pub size : String → ℕ
size String.[] = 0
size (String.◌∷◌ c s) = suc (size s)

-- The lower case of a character that is not ASCII: a first character, and those behind it, which only
-- U+0130 has.
module _ (wide : Char → Char × String) where
  unfoldable pub lower_char : Char → Char
  lower_char c =
      if leb b'A' (code c) && leb (code c) b'Z'
      then char_at "abcdefghijklmnopqrstuvwxyz" (code c - b'A')
      else if ltb (code c) 128
      then c
      else (wide c).0

  unfoldable pub lower_more : Char → String
  lower_more c = if ltb (code c) 128 then String.[] else (wide c).1

  unfoldable pub lower : String → String
  unfolding lower_char lower_more join
  lower String.[] = String.[]
  lower (String.◌∷◌ c s) = String.◌∷◌ (lower_char c) (join (lower_more c) (lower s))

  -- The surplus behind one more character.
  unfoldable pub shifted : String → Char → String
  unfolding lower_char lower_more join
  shifted String.[] c = lower_more c
  shifted (String.◌∷◌ d surplus) c = join surplus (String.◌∷◌ (lower_char c) (lower_more c))

  -- The search for the token moves one index over the text and over the text in lower case. What
  -- stands before the index in the text never changes, so the text is the one from the index on here.
  -- The text in lower case from the index on is a surplus, as long as what stands before is longer in
  -- lower case, and then the lower case of that text. Each match takes one unit of fuel.
  unfoldable pub scrub_token : ℕ → String → String → String → String
  unfolding lower redact shifted join
  scrub_token fuel token surplus String.[] = String.[]
  scrub_token zero token surplus (String.◌∷◌ c s) =
      let moved = scrub_token zero token (shifted surplus c) s in
      String.◌∷◌ c (if starts token (join surplus (lower (String.◌∷◌ c s))) then s else moved)
  scrub_token (suc fuel) token surplus (String.◌∷◌ c s) =
      let redacted = scrub_token fuel token (shifted surplus c) (redact_behind c s) in
      let moved = scrub_token (suc fuel) token (shifted surplus c) s in
      String.◌∷◌ c
        (if starts token (join surplus (lower (String.◌∷◌ c s))) then redacted else moved)

  unfoldable pub scrub_each : List String → String → String
  unfolding scrub_token size lower
  scrub_each [] value = value
  scrub_each (token ∷ tokens) value =
      scrub_each tokens (scrub_token (size (lower value)) token String.[] value)

  unfoldable pub scrub : String → String
  unfolding scrub_each
  scrub value = scrub_each forbidden_substrings value

-- A forbidden name and `=` stand in the message, in lower case.
abbrev pub is_suspicious : String → Bool
is_suspicious message =
    any_of (λ token. occurs token message && occurs "=" message) forbidden_substrings

-- `record.msg`, a text or another object, which `_scrub` returns as it is.
pub data Message (O : Type 0) : Type 0 where
  text : String → Message O
  object : O → Message O

pub record LogRecord (O A : Type 0) : Type 0 where
  pub msg : Message O
  pub args : Option A  -- none for an empty tuple
  pub trace_id : String

-- `str(msg) % args`, which may raise, and `str` of an object.
pub record Rendering (O A : Type 0) : Type 0 where
  pub shown : O → String
  pub formatted : String → A → Option String

module _ {O A : Type 0} (r : Rendering O A) where
  abbrev pub str : Message O → String
  str (text s) = s
  str (object o) = r.shown o

  abbrev pub with_args : Option A → String → Option String
  with_args none s = some s
  with_args (some a) s = r.formatted s a

  -- `record.getMessage()`
  unfoldable pub get_message : LogRecord O A → Option String
  get_message entry = with_args entry.args (str entry.msg)

module _ (wide : Char → Char × String) {O A : Type 0} (r : Rendering O A) where
  abbrev pub scrubbed : Message O → Message O
  scrubbed (text s) = text (scrub wide s)
  scrubbed (object o) = object o

  -- `SecretScrubbingFilter.filter`: the record that is passed on; every record is.
  unfoldable pub filter : LogRecord O A → LogRecord O A
  unfolding get_message lower
  filter entry = elim (get_message r entry) [
    | none ↦ entry
    | some m ↦
        if is_suspicious (lower wide m)
        then record entry { msg = scrubbed entry.msg; args = none }
        else entry
  ]

-- Python's `or` on a text that may be missing.
abbrev pub or_text : Option String → String → String
or_text none fallback = fallback
or_text (some s) fallback = if is_true_text s then s else fallback

-- `TraceIdFilter.filter`, with the trace id of the context.
unfoldable pub filter_trace : {O A : Type 0} → Option String → LogRecord O A → LogRecord O A
filter_trace current entry = record entry { trace_id = or_text current "-" }

-- `trace_context`: the body runs in a context with an id, and the one before comes back, also where
-- the body raises. `fresh` is `new_trace_id()`.
unfoldable pub trace_context {ℓ} :
    {B : Type ℓ} → Option String → String → (Option String → B) → Option String → B × Option String
trace_context trace_id fresh body before = (body (some (or_text trace_id fresh)), before)

pub data HandlerFilter : Type 0 where
  trace_ids secrets : HandlerFilter

-- A handler writes to its file; the formatter is left out.
pub record Handler : Type 0 where
  pub file : String
  pub max_bytes : ℕ
  pub backup_count : ℕ
  pub level : LogLevel
  pub filters : List HandlerFilter

-- The root logger, and the loggers whose level is raised to `WARNING`.
pub record Root : Type 0 where
  pub configured : Bool
  pub level : LogLevel
  pub handlers : List Handler
  pub quieted : List String

abbrev noisy : List String
noisy = "ccxt" ∷ "urllib3" ∷ "httpx" ∷ "httpcore" ∷ "asyncio" ∷ []

abbrev log_file_of : Option String → String
log_file_of none = "logs/trade_post.log"
log_file_of (some file) = file

unfoldable pub configure_logging : {F : Type 0} → Settings F → Option String → Root → Root
configure_logging settings log_file root = if root.configured then root else record {
  configured = true;
  level = settings.log_level;
  handlers =
      root.handlers
      ++ record {
        file = log_file_of log_file;
        max_bytes = 10_000_000;
        backup_count = 10;
        level = settings.log_level;
        filters = trace_ids ∷ secrets ∷ [];
      }
        ∷ [];
  quieted = noisy;
}
