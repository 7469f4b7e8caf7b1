-- ===== src/Strategy/Tests.antt =====
-- The signal of a snapshot with a relative strength.
use trade_post.Base.{◌≡◌, refl, none}
use trade_post.Decimal.{Decimal, of_ℕ}
use trade_post.Domain.{long, MarketSnapshot}
use trade_post.Floats.Sample.{decimal_floats, arithmetic}
use trade_post.Samples.{quote}
use trade_post.Strategy.{
  StrategySignal, features_of, mean_reversion, trend_of, score_of, threshold_of, side_of,
  strength_of, strength_in, signal_of, from_snapshot,
}
use trade_post.Strategy.Sides.{with_rsi}

program : Unit {0}
unfolding arithmetic features_of mean_reversion trend_of score_of threshold_of side_of strength_of
    strength_in signal_of from_snapshot
program = tt

-- Oversold at 10, without any other indicator.
abbrev oversold : MarketSnapshot Decimal
oversold = with_rsi (of_ℕ 10) (quote none)

abbrev signal : StrategySignal Decimal
signal = signal_of "BTC/USDT" (features_of oversold.indicators)

is_long : signal.signal ≡ long
unfolding program
is_long = refl
