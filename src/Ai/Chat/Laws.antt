-- ===== src/Ai/Chat/Laws.antt =====
-- What `chat_json` returns and records, by the answers of the server.
use native.Mathlib.Decide.{ℕ_discrete}
use native.Mathlib.Nat.{le_refl}
use trade_post.Base.{ℕ, zero, suc, ◌+◌, ◌≤◌, ◌<◌, ◌≡◌, refl, sym, subst, true, false, arith}
use trade_post.Ai.Breaker.{Breaker, is_open, record_failure, record_success}
use trade_post.Ai.Chat.{
  Attempt, answered, retryable, Fault, IsRetried, parsed, circuit_open, given_up, attempts,
  chat_json,
}

module _ {A : Type 0} (server : ℕ → Attempt A) where
  attempts_answer :
      (now left n k : ℕ) (a : A) (b : Breaker)
      → n ≤ k
      → k ≤ n + left
      → ((j : ℕ) → n ≤ j → j < k → IsRetried (server j))
      → server k ≡ answered a
      → attempts server now left n b ≡ (parsed a, record_success b)
  unfolding attempts
  attempts_answer now zero n k a b lo hi before at =
      let e : k ≡ n = omega arith in rw (subst (λ j. server j ≡ answered a) e at, attempts)
  attempts_answer now (suc left) n k a b lo hi before at = elim (ℕ_discrete n k) [
    | yes e ↦ rw (subst (λ j. server j ≡ answered a) (sym e) at, attempts)
    | no ne ↦
        rw ((before n (le_refl n) (omega arith)).1, attempts)
          (attempts_answer now left (suc n) k a b (omega arith) (omega arith)
            (λ j h. before j (omega arith)) at)
  ]

  attempts_exhausted :
      (now left n : ℕ) (f : Fault) (b : Breaker)
      → server (n + left) ≡ retryable f
      → ((j : ℕ) → n ≤ j → j ≤ n + left → IsRetried (server j))
      → attempts server now left n b ≡ (given_up f, record_failure now b)
  unfolding attempts
  attempts_exhausted now zero n f b last all =
      let e : n + 0 ≡ n = omega arith in
      rw (subst (λ j. server j ≡ retryable f) e last, attempts) refl
  attempts_exhausted now (suc left) n f b last all =
      let e : n + suc left ≡ suc n + left = omega arith in
      rw ((all n (le_refl n) (omega arith)).1, attempts)
        (attempts_exhausted now left (suc n) f b (subst (λ j. server j ≡ retryable f) e last)
          (λ j lo hi. all j (omega arith) (omega arith)))

  -- With a closed breaker, the first attempt that answers within the retries decides the reply, and
  -- the breaker records one success however many attempts failed before.
  pub chat_json_answers :
      (start now max_retries k : ℕ) (a : A) (b : Breaker)
      → (is_open start b).0 ≡ false
      → k ≤ max_retries
      → ((j : ℕ) → j < k → IsRetried (server j))
      → server k ≡ answered a
      → chat_json server start now max_retries b ≡ (parsed a, record_success (is_open start b).1)
  unfolding chat_json
  chat_json_answers start now m k a b closed h before at =
      rw (closed, chat_json)
        (attempts_answer now m 0 k a _ (omega arith) (omega arith) (λ j _ hj. before j hj) at)

  -- With a closed breaker, if the first attempt and all retries fail, the last error is raised again and the
  -- breaker records one failure, not one for each attempt.
  pub chat_json_fails :
      (start now max_retries : ℕ) (f : Fault) (b : Breaker)
      → (is_open start b).0 ≡ false
      → server max_retries ≡ retryable f
      → ((j : ℕ) → j ≤ max_retries → IsRetried (server j))
      → chat_json server start now max_retries b
        ≡ (given_up f, record_failure now (is_open start b).1)
  unfolding chat_json
  chat_json_fails start now m f b closed last all =
      let e : m ≡ 0 + m = omega arith in
      rw (closed, chat_json)
        (attempts_exhausted now m 0 f _ (subst (λ j. server j ≡ retryable f) e last)
          (λ j _ hj. all j (omega arith)))

-- With an open breaker the server is not asked: the reply is the same for any two servers.
pub chat_json_blocked :
    {A : Type 0} (server other : ℕ → Attempt A) (start now max_retries : ℕ) (b : Breaker)
    → (is_open start b).0 ≡ true
    → (chat_json server start now max_retries b ≡ (circuit_open, (is_open start b).1))
      × (chat_json other start now max_retries b ≡ (circuit_open, (is_open start b).1))
unfolding chat_json
chat_json_blocked server other start now m b open_now =
    (rw (open_now, chat_json), rw (open_now, chat_json))
