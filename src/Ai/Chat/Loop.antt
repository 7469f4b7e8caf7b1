-- ===== src/Ai/Chat/Loop.antt =====
-- trade_post/ai/ollama.py: the `while` loop of `chat_json` as it is written, with its counter, and its
-- end.
use trade_post.Base.{
  ℕ, zero, suc, ◌+◌, ◌≤◌, ◌<◌, ◌≡◌, refl, ◌∙◌, subst, ap, false, Option, none, some, [], arith, leb,
  ltb, if◌then◌else◌,
}
use trade_post.Ai.Breaker.{Breaker, is_open, record_failure, record_success}
use trade_post.Ai.Chat.{
  Attempt, answered, retryable, crashed, IsRetried, Fault, provider_fault, Reply, parsed, given_up,
  uncaught, attempts, chat_json,
}
use trade_post.Ai.Chat.Laws.{chat_json_answers}

module _ {A : Type 0} (server : ℕ → Attempt A) where
  -- The loop on fuel, of which none means that it ran out.
  unfoldable pub attempt_loop : ℕ → ℕ → ℕ → ℕ → Breaker → Option (Reply A × Breaker)
  attempt_loop zero now max_retries attempt b = none
  attempt_loop (suc fuel) now max_retries attempt b =
      let again = attempt_loop fuel now max_retries (attempt + 1) b in
      let failed : Fault → Option (Reply A × Breaker) = λ f.
        if ltb max_retries (attempt + 1) then some (given_up f, record_failure now b) else again in
      let tried : Option (Reply A × Breaker) = elim (server attempt) [
        | answered a ↦ some (parsed a, record_success b)
        | crashed ↦ some (uncaught, b)
        | retryable f ↦ failed f
      ] in
      -- After the loop: no error has been kept, since none was raised.
      if leb attempt max_retries then tried else some (given_up provider_fault, b)

  -- With a retry left, an attempt that may be tried again is followed by the next.
  loop_again :
      (fuel now max_retries attempt : ℕ) (b : Breaker) (rest : Option (Reply A × Breaker))
      → attempt < max_retries
      → attempt_loop fuel now max_retries (attempt + 1) b ≡ rest
      → attempt_loop (suc fuel) now max_retries attempt b ≡ elim (server attempt) [
        | answered a ↦ some (parsed a, record_success b)
        | crashed ↦ some (uncaught, b)
        | retryable f ↦ rest
      ]
  unfolding attempt_loop
  loop_again fuel now max_retries attempt b rest h e = ground arith

  loop-attempts :
      (left now attempt : ℕ) (b : Breaker)
      → attempt_loop (suc left) now (attempt + left) attempt b
        ≡ some (attempts server now left attempt b)
  unfolding attempt_loop attempts
  loop-attempts zero now attempt b = ground arith
  loop-attempts (suc left) now attempt b =
      let e : attempt + 1 + left ≡ attempt + suc left = omega arith in
      let n : attempt + 1 ≡ suc attempt = omega arith in
      let rest =
        subst
          (λ m.
            attempt_loop (suc left) now (attempt + suc left) (attempt + 1) b
            ≡ some (attempts server now left m b))
          n
          (subst
            (λ m.
              attempt_loop (suc left) now m (attempt + 1) b
              ≡ some (attempts server now left (attempt + 1) b))
            e (loop-attempts left now (attempt + 1) b)) in
      loop_again (suc left) now (attempt + suc left) attempt b _ (omega arith) rest
      ∙ at (server attempt) refl
    where
      at :
          (x : Attempt A)
          → server attempt ≡ x
          → elim (server attempt) as (λ _. Option (Reply A × Breaker)) [
            | answered a ↦ some (parsed a, record_success b)
            | crashed ↦ some (uncaught, b)
            | retryable f ↦ some (attempts server now left (suc attempt) b)
          ]
            ≡ some (attempts server now (suc left) attempt b)
      at x e = ground arith

  -- The loop of `chat_json` ends: with one step of fuel more than there are retries it returns, for
  -- every server and breaker, what the recursion on the retries left returns, and so never falls out
  -- of the loop without an answer or a raised error.
  pub chat_loop_ends :
      (now max_retries : ℕ) (b : Breaker)
      → attempt_loop (suc max_retries) now max_retries 0 b
        ≡ some (attempts server now max_retries 0 b)
  chat_loop_ends now max_retries b =
      let e : 0 + max_retries ≡ max_retries = omega arith in
      subst
        (λ m. attempt_loop (suc max_retries) now m 0 b ≡ some (attempts server now max_retries 0 b))
        e (loop-attempts max_retries now 0 b)

reopens :
    (now opened : ℕ) (b : Breaker)
    → b.opened_at ≡ some opened
    → opened + b.cooldown ≤ now
    → (is_open now b).0 ≡ false
unfolding is_open
reopens now opened b was h = rw was (ground arith)

-- After the cooldown the client recovers: a breaker that opened no later than a cooldown ago lets the
-- call through, and if the server answers at the first attempt or at one of the retries, after
-- failures that are tried again, then the reply is that answer and the breaker is closed with no
-- failure counted.
pub chat_json_recovers :
    {A : Type 0} (server : ℕ → Attempt A) (start now max_retries k opened : ℕ) (a : A) (b : Breaker)
    → b.opened_at ≡ some opened
    → opened + b.cooldown ≤ start
    → k ≤ max_retries
    → ((j : ℕ) → j < k → IsRetried (server j))
    → server k ≡ answered a
    → ((chat_json server start now max_retries b).0 ≡ parsed a)
      × ((chat_json server start now max_retries b).1.opened_at ≡ none)
      × ((chat_json server start now max_retries b).1.failures ≡ [])
unfolding record_success
chat_json_recovers server start now max_retries k opened a b was h hk before at =
    let closed = reopens start opened b was h in
    let e = chat_json_answers server start now max_retries k a b closed hk before at in
    (ap (λ r. r.0) e, ap (λ r. r.1.opened_at) e, ap (λ r. r.1.failures) e)
