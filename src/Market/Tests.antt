-- ===== src/Market/Tests.antt =====
-- The indicators of three closes.
use trade_post.Base.{◌≡◌, refl, none, some, List, [], ◌∷◌}
use trade_post.Decimal.{Decimal, of_ℕ, sub, div, at_most}
use trade_post.Domain.{Indicators}
use trade_post.Floats.Sample.{decimal_floats}
use trade_post.Market.Features.{returns_from, volatility_of, atr_of, vwap_of, compute_all}
use trade_post.Market.Indicators.{sma, ema, rsi, macd, bollinger, realized_volatility}

abbrev closes : List Decimal
closes = of_ℕ 100 ∷ of_ℕ 110 ∷ of_ℕ 121 ∷ []

-- The return from one close to the next.
abbrev rate : Decimal → Decimal → Decimal
rate before after = sub (div after before) (of_ℕ 1)

abbrev computed : Indicators Decimal
computed = record {
  rsi = rsi closes 2;
  macd = macd closes;
  ema_fast = ema closes 12;
  ema_slow = ema closes 26;
  sma = sma closes 20;
  bollinger = bollinger closes 3;
  atr = atr_of closes none none 14;
  vwap = vwap_of closes none none none;
  volatility = realized_volatility (rate (of_ℕ 100) (of_ℕ 110) ∷ rate (of_ℕ 110) (of_ℕ 121) ∷ []);
}

computes : compute_all closes none none none 2 14 3 ≡ some computed
unfolding compute_all volatility_of returns_from at_most
computes = refl
