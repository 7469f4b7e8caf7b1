-- ===== src/Logging/Tests.antt =====
-- Records with a secret in the text and in the arguments.
use Prim.Native.Char.{Char, code}
use Prim.Native.String.{◌++◌, char_at}
use trade_post.Base.{
  ◌≡◌, refl, ◌⊎◌, String, true, none, some, starts, occurs, any_of, ◌==◌, ltb, ◌&&◌, &&-true, subst,
  Bool, Option, if◌then◌else◌,
}
use trade_post.Logging.{
  LogRecord, Rendering, text, get_message, filter, scrub, forbidden_substrings, scrub_each,
  scrub_token, redact, after_value, join, lower, lower_char, lower_more, shifted, size,
}
use trade_post.Logging.Same.{IsNarrow, first}
use trade_post.Logging.Filter.{all_clean, filter_hides}

-- U+0130 has two characters in lower case.
abbrev wide : Char → Char × String
wide c = if code c == 304 then (char_at "i" 0, "̇") else (c, "")

-- The argument stands behind the text.
abbrev rendering : Rendering String String
rendering = record { shown = λ o. o; formatted = λ s a. some (s ++ a) }

abbrev entry : LogRecord String String
entry = record {
  msg = text "Retry, Password_token=hunter2, user=";
  args = some "bob";
  trace_id = "-";
}

-- The second pass takes the mark's own bracket for the end of the value.
scrubs :
    scrub wide "Retry, Password_token=hunter2, user=" ≡ "Retry, Password_token=[REDACTED]], user="
unfolding scrub scrub_each scrub_token redact after_value join lower lower_char lower_more shifted
    size starts
scrubs = refl

drops_arguments :
    get_message rendering (filter wide rendering entry)
    ≡ some "Retry, Password_token=[REDACTED]], user="
unfolding scrub scrub_each scrub_token redact after_value join lower lower_char lower_more shifted
    size starts filter get_message occurs any_of
drops_arguments = refl

abbrev is_ascii : String → Bool
is_ascii String.[] = true
is_ascii (String.◌∷◌ c s) = ltb (code c) 128 && is_ascii s

is_ascii-IsNarrow : (s : String) → is_ascii s ≡ true → IsNarrow wide s
unfolding lower_more
is_ascii-IsNarrow String.[] h = tt
is_ascii-IsNarrow (String.◌∷◌ c s) h =
    let both = &&-true {a = ltb (code c) 128} {b = is_ascii s} h in
    (rw (both.0, lower_more) refl, is_ascii-IsNarrow s both.1)

abbrev IsNarrowIn : Option String → Type 0
IsNarrowIn none = Unit {0}
IsNarrowIn (some m) = IsNarrow wide m

renders-IsNarrow : (m : String) → get_message rendering entry ≡ some m → IsNarrow wide m
unfolding get_message
renders-IsNarrow m e =
    subst IsNarrowIn e (is_ascii-IsNarrow "Retry, Password_token=hunter2, user=bob" refl)

filter_hides_example :
    (get_message rendering (filter wide rendering entry) ≡ none)
    ⊎ ((m : String) × (get_message rendering (filter wide rendering entry) ≡ some m)
        × (all_clean (first wide) forbidden_substrings m ≡ true))
filter_hides_example =
    filter_hides wide rendering entry "Retry, Password_token=hunter2, user=" refl
      (is_ascii-IsNarrow "Retry, Password_token=hunter2, user=" refl) renders-IsNarrow

-- What stands before the name is twice as long in lower case, so the index misses the name and the
-- equals sign, and the secret is written.
leaks : scrub wide "İİİİİİİİİİİİİİİİİİİİpassword=x" ≡ "İİİİİİİİİİİİİİİİİİİİpassword=x"
unfolding scrub scrub_each scrub_token redact after_value join lower lower_char lower_more shifted
    size starts
leaks = refl
