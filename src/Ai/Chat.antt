-- ===== src/Ai/Chat.antt =====
-- trade_post/ai/ollama.py: the guard and the retry loop of `OllamaClient.chat_json`. The server is
-- a function from the number of an attempt to what became of it; waiting between the attempts and
-- the semaphore change no state of the client.
pub mod Laws
pub mod Loop
use trade_post.Base.{◌≡◌, ℕ, zero, suc, ◌+◌, Bool, true, false, Option, none, some, if◌then◌else◌}
use trade_post.Ai.Breaker.{Breaker, is_open, record_failure, record_success}

-- An `httpx.HTTPError`, which is a transport error or a status, or an `AIProviderError`, for a missing
-- model or a text without JSON.
pub data Fault : Type 0 where
  http_fault provider_fault : Fault

-- An attempt returns a parsed answer, fails in a way that is tried again, or raises something that the
-- loop does not catch.
pub data Attempt (A : Type 0) : Type 0 where
  answered : A → Attempt A
  retryable : Fault → Attempt A
  crashed : Attempt A

-- The attempt fails in a way that is tried again.
abbrev pub IsRetried : {A : Type 0} → Attempt A → Type 0
IsRetried {A} a = (f : Fault) × (a ≡ retryable f)

-- The last error is raised again as it is.
pub data Reply (A : Type 0) : Type 0 where
  parsed : A → Reply A
  circuit_open : Reply A
  given_up : Fault → Reply A
  uncaught : Reply A

module _ {A : Type 0} (server : ℕ → Attempt A) where
  -- `left` retries remain after attempt `n`; `now` is the clock at the last failure.
  unfoldable pub attempts : ℕ → ℕ → ℕ → Breaker → Reply A × Breaker
  attempts now zero n b = elim (server n) [
    | answered a ↦ (parsed a, record_success b)
    | retryable f ↦ (given_up f, record_failure now b)
    | crashed ↦ (uncaught, b)
  ]
  attempts now (suc left) n b = elim (server n) [
    | answered a ↦ (parsed a, record_success b)
    | retryable f ↦ attempts now left (suc n) b
    | crashed ↦ (uncaught, b)
  ]

  unfoldable pub chat_json : ℕ → ℕ → ℕ → Breaker → Reply A × Breaker
  chat_json start now max_retries b =
      let (refused, b') = is_open start b in
      if refused then (circuit_open, b') else attempts now max_retries 0 b'
