-- ===== src/Execution/Pricing.antt =====
-- trade_post/execution/engine.py: the estimate of the fill price and its slippage.
use trade_post.Base.{Option, none, some, if◌then◌else◌, or_else}
use trade_post.Decimal.{Decimal, nought, at_most, sub, is_nonzero}
use trade_post.Domain.{OrderIntent, OrderSide, buy, sell, OrderType, market, limit, MarketSnapshot}
use trade_post.Floats.{Floats}

module _ {F : Type 0} ⦃fl : Floats F⦄ where
  -- `_estimate_fill_price`
  unfoldable pub market_price : OrderSide → MarketSnapshot F → Decimal
  market_price buy snap = or_else snap.ask snap.last_price
  market_price sell snap = or_else snap.bid snap.last_price

  -- `limit_price or last_price`: a limit price of 0 is passed over.
  abbrev pub limit_or_last : Option Decimal → MarketSnapshot F → Decimal
  limit_or_last none snap = snap.last_price
  limit_or_last (some p) snap = if is_nonzero p then p else snap.last_price

  unfoldable pub estimate_fill_price : OrderType → OrderIntent → MarketSnapshot F → Decimal
  unfolding market_price
  estimate_fill_price market i snap = market_price i.side snap
  estimate_fill_price limit i snap = limit_or_last i.limit_price snap

  abbrev pub relative_slip : Decimal → Decimal → F
  relative_slip price last = fl.fdiv (fl.of_decimal (sub price last)) (fl.of_decimal last)

  abbrev signed_for : OrderSide → F → F
  signed_for buy x = x
  signed_for sell x = fl.fneg x

  -- `_calculate_slippage_pct`
  unfoldable pub calculate_slippage_pct : Decimal → OrderSide → Decimal → F
  calculate_slippage_pct last side price =
      if at_most last nought
      then fl.of_ℕ 0
      else fl.fmul (fl.fdiv (signed_for side (fl.of_decimal (sub price last))) (fl.of_decimal last))
          (fl.of_ℕ 100)
