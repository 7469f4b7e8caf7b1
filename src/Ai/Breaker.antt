-- ===== src/Ai/Breaker.antt =====
-- trade_post/ai/ollama.py: `CircuitBreaker`. `now` is a reading of the monotonic clock, in
-- microseconds.
pub mod Laws
use trade_post.Base.{
  ℕ, ◌+◌, Bool, true, false, Option, none, some, List, [], ◌∷◌, ◌++◌, ltb, leb, if◌then◌else◌,
  length, keep_if,
}

pub record Breaker : Type 0 where
  pub threshold : ℕ
  pub cooldown : ℕ
  pub failures : List ℕ
  pub opened_at : Option ℕ

-- 60 seconds.
abbrev pub window : ℕ
window = 60_000_000

unfoldable pub init : ℕ → ℕ → Breaker
init threshold cooldown = record {
  threshold = threshold;
  cooldown = cooldown;
  failures = [];
  opened_at = none;
}

-- The property `is_open` rearms the breaker when the cool-down is over.
unfoldable pub is_open : ℕ → Breaker → Bool × Breaker
is_open now b = elim b.opened_at [
  | none ↦ (false, b)
  | some t ↦
      if leb (t + b.cooldown) now
      then (false, record b { failures = []; opened_at = none })
      else (true, b)
]

abbrev pub is_recent : ℕ → ℕ → Bool
is_recent now t = ltb now (t + window)

unfoldable pub record_failure : ℕ → Breaker → Breaker
record_failure now b =
    let kept = keep_if (is_recent now) b.failures ++ (now ∷ []) in
    record b {
      failures = kept;
      opened_at = if leb b.threshold (length kept) then some now else b.opened_at;
    }

unfoldable pub record_success : Breaker → Breaker
record_success b = record b { failures = []; opened_at = none }
