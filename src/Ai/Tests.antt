-- ===== src/Ai/Tests.antt =====
-- The breaker and the retry loop, on a server that answers its third attempt.
use trade_post.Base.{
  String, Option, strip, lstrip, rstrip, is_space, ℕ, zero, suc, ◌≡◌, ◌<◌, refl, none, some, [],
  ◌∷◌, arith,
}
use trade_post.Ai.Breaker.{Breaker}
use trade_post.Ai.Chat.{
  Attempt, answered, retryable, IsRetried, http_fault, provider_fault, parsed, attempts, chat_json,
}
use trade_post.Ai.Extract.{
  past, closes, body, block, fence_at, fence, from_brace, through_brace, extract_json,
}
use trade_post.Ai.Extract.Laws.{IsObjectIn, extract_json-IsObjectIn}
use trade_post.Ai.Chat.Loop.{attempt_loop, chat_loop_ends, chat_json_recovers}

-- The settings' defaults: five failures, a cool-down of a minute.
abbrev closed : Breaker
closed = record { threshold = 5; cooldown = 60_000_000; failures = 7 ∷ []; opened_at = none }

abbrev opened : Breaker
opened = record closed { opened_at = some 100 }

server : ℕ → Attempt ℕ
server zero = retryable http_fault
server (suc zero) = retryable provider_fault
server (suc (suc _)) = answered 42

down : ℕ → Attempt ℕ
down _ = retryable http_fault

chat_loop_ends_example : attempt_loop server 4 9 3 0 closed ≡ some (attempts server 9 3 0 closed)
chat_loop_ends_example = chat_loop_ends server 9 3 closed

chat_json_recovers_example :
    ((chat_json server 60_000_100 60_000_200 3 opened).0 ≡ parsed 42)
    × ((chat_json server 60_000_100 60_000_200 3 opened).1.opened_at ≡ none)
    × ((chat_json server 60_000_100 60_000_200 3 opened).1.failures ≡ [])
unfolding server
chat_json_recovers_example =
    chat_json_recovers server 60_000_100 60_000_200 3 2 100 42 opened refl (omega arith)
      (omega arith) early refl
  where
    early : (j : ℕ) → j < 2 → IsRetried (server j)
    early zero h = (http_fault, refl)
    early (suc zero) h = (provider_fault, refl)
    early (suc (suc j)) h = absurd (omega arith)

-- A parser that gives back the text.
abbrev echo : String → Option String
echo t = some t

abbrev fenced : String
fenced = "Sure: ```json {\"a\": {}} ``` done."

extract_json-IsObjectIn_example : (t : String) × (echo t ≡ some "{\"a\": {}}") × IsObjectIn t fenced
unfolding strip lstrip rstrip is_space past closes body block fence_at fence from_brace
    through_brace extract_json
extract_json-IsObjectIn_example = extract_json-IsObjectIn echo fenced "{\"a\": {}}" refl
