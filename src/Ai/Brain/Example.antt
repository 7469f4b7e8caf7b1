-- ===== src/Ai/Brain/Example.antt =====
-- A long signal, a server that is down and one whose second attempt names another symbol.
use Prim.Native.Char.{Char}
use trade_post.Base.{
  ℕ, zero, suc, ◌≡◌, ◌<◌, refl, String, true, none, List, [], ◌∷◌, arith, if◌then◌else◌, any_of,
  upper, prefix,
}
use trade_post.Base.Int.{pos}
use trade_post.Ai.Baseline.{has_edge, baseline_from_signal}
use trade_post.Ai.Brain.{
  AiDecision, decision, Asking, conviction_of, assemble, conclude, consult, decide, decision_of,
  signal_in, merge, decision_keys, to_float,
}
use trade_post.Ai.Brain.Answers.{Answers}
use trade_post.Ai.Breaker.{Breaker, is_open, record_success}
use trade_post.Ai.Chat.{
  Attempt, answered, retryable, IsRetried, http_fault, provider_fault, attempts, chat_json,
}
use trade_post.Ai.Schema.{Json, text, conforms, admits, follows_rules, IsFaithful}
use trade_post.Decimal.{Decimal, of_ℕ}
use trade_post.Dict
use trade_post.Dict.{Dict}
use trade_post.Domain.{long}
use trade_post.Floats.Sample.{decimal_floats, arithmetic}
use trade_post.Samples.{settings}
use trade_post.Strategy.{StrategySignal}

unfoldable pub violations : Dict (Json Decimal) → List String
violations raw = if conforms raw then [] else "not an AIDecisionV1" ∷ []

pub violations-IsFaithful : IsFaithful violations
unfolding violations
violations-IsFaithful raw = ground arith

abbrev pub wide : Char → String
wide c = "?"

abbrev pub signal : StrategySignal Decimal
signal = record {
  symbol = "BTC/USDT";
  signal = long;
  strength = record { coef = pos 5; scale = 1 };
  features = record {
    rsi = of_ℕ 10;
    trend = of_ℕ 0;
    mean_rev = of_ℕ 0;
    momentum = of_ℕ 0;
    volatility = of_ℕ 0;
    ema_fast = of_ℕ 0;
    ema_slow = of_ℕ 0;
    macd_histogram = of_ℕ 0;
  };
  rationale = "oversold";
}

abbrev pub asking : Asking
asking = record {
  id = "0123456789";
  looked = 1;
  start = 2;
  failed_at = 3;
  stamped = 4;
  trace_id = none;
}

abbrev pub closed : Breaker
closed = record { threshold = 5; cooldown = 60; failures = []; opened_at = none }

unfoldable pub down : ℕ → Attempt (Dict (Json Decimal))
down _ = retryable provider_fault

unfoldable pub unreachable : ℕ → Attempt (Dict (Json Decimal))
unreachable _ = retryable http_fault

abbrev pub answer : Dict (Json Decimal)
answer = ("action", text "SELL") ∷ ("symbol", text "ETH/USDT") ∷ ("confidence", text "high") ∷ []

unfoldable pub server : ℕ → Attempt (Dict (Json Decimal))
server zero = retryable http_fault
server (suc _) = answered answer

unfoldable pub program : Unit {0}
unfolding arithmetic violations down server has_edge baseline_from_signal merge to_float
    conviction_of assemble conclude consult decide signal_in upper prefix any_of Dict.get Dict.put
    conforms follows_rules admits is_open record_success chat_json attempts
program = tt

abbrev pub sold : AiDecision Decimal
sold =
    decision_of settings violations wide asking signal
      (merge decision_keys answer (baseline_from_signal signal (of_ℕ 100) (of_ℕ 10_000))) true
      (of_ℕ 0)

pub is_sold :
    (decide settings violations wide server asking signal (of_ℕ 100) (of_ℕ 10_000) closed).0
    ≡ decision sold
unfolding program
is_sold = refl

pub answers : Answers settings server asking closed answer
unfolding program
answers = record {
  round = 1;
  within = omega arith;
  before = early;
  at = refl;
  looked_closed = refl;
  start_closed = refl;
}
  where
    early : (j : ℕ) → j < 1 → IsRetried (server j)
    early zero h = (http_fault, refl)
    early (suc j) h = absurd (omega arith)
