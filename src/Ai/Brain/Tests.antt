-- ===== src/Ai/Brain/Tests.antt =====
-- Decisions on a long signal, with a server that is down and with one that names another symbol.
use Prim.Native.String.{count}
use trade_post.Base.{◌≡◌, ◌≤◌, ◌&&◌, inr, refl, true, if◌then◌else◌}
use trade_post.Ai.Baseline.{has_edge, baseline_from_signal}
use trade_post.Ai.Brain.{AiDecision, decision, crashed, decide}
use trade_post.Ai.Brain.Answers.{decide_bounds}
use trade_post.Ai.Brain.Fallback.{decide_fallback, decide_unreachable}
use trade_post.Ai.Brain.Laws.{IsSound, decide-IsSound}
use trade_post.Ai.Breaker.{record_failure}
use trade_post.Ai.Chat.{http_fault, provider_fault}
use trade_post.Decimal.{Decimal, of_ℕ}
use trade_post.Dict
use trade_post.Dict.{Dict}
use trade_post.Domain.{flat}
use trade_post.Floats.Sample.{decimal_floats}
use trade_post.Samples.{settings}
use trade_post.Strategy.{is_strength}
use trade_post.Ai.Brain.Example.{
  violations, violations-IsFaithful, wide, signal, asking, closed, down, unreachable, server,
  program, sold, is_sold,
}

decide-IsSound_example : IsSound sold
decide-IsSound_example =
    decide-IsSound settings violations wide violations-IsFaithful server asking signal (of_ℕ 100)
      (of_ℕ 10_000) closed sold is_sold

decide_bounds_example :
    (1 ≤ sold.conviction)
    × (sold.conviction ≤ 10)
    × (is_strength sold.confidence ≡ true)
    × (count sold.rationale ≤ 240)
decide_bounds_example =
    decide_bounds settings violations wide server asking signal (of_ℕ 100) (of_ℕ 10_000) closed sold
      is_sold

decide_fallback_example :
    (d : AiDecision Decimal) × ((decide settings violations wide down asking signal
        (of_ℕ 100)
        (of_ℕ 10_000)
        closed).0
      ≡ decision d)
    × (d.raw_output ≡ baseline_from_signal signal (of_ℕ 100) (of_ℕ 10_000))
    × (d.model ≡ "deterministic-fallback")
    × (d.signal ≡ (if has_edge signal && d.validated then signal.signal else flat))
unfolding program
decide_fallback_example =
    decide_fallback settings violations wide down asking signal (of_ℕ 100) (of_ℕ 10_000) closed
      (inr (record { last = refl; all = λ j h. (provider_fault, refl) })) refl

-- The model's server cannot be reached.
decide_unreachable_example :
    decide settings violations wide unreachable asking signal (of_ℕ 100) (of_ℕ 10_000) closed
    ≡ (crashed, record_failure 3 closed)
unfolding program unreachable
decide_unreachable_example =
    decide_unreachable settings violations wide unreachable asking signal (of_ℕ 100) (of_ℕ 10_000)
      closed (record { last = refl; all = λ j h. (http_fault, refl) }) refl refl
