-- ===== src/Strategy.antt =====
-- trade_post/strategy/signals.py: the deterministic signal of a snapshot.
pub mod Sides
mod Tests
use Prim.Native.String.{◌++◌}
use trade_post.Base.{
  ℕ, String, Bool, true, false, not, ◌&&◌, Option, none, some, if◌then◌else◌, or_else,
}
use trade_post.Decimal.{Decimal, of_ℕ, nought, at_most}
use trade_post.Domain.{SignalSide, long, short, flat, MarketSnapshot, Indicators, Macd}
use trade_post.Floats.{Floats, is_true_float, fmax, fmin}

pub record Features (F : Type 0) : Type 0 where
  pub rsi : F
  pub trend : F
  pub mean_rev : F
  pub momentum : F
  pub volatility : F
  pub ema_fast : F
  pub ema_slow : F
  pub macd_histogram : F

pub record StrategySignal (F : Type 0) : Type 0 where
  pub symbol : String
  pub signal : SignalSide
  pub strength : Decimal
  pub features : Features F
  pub rationale : String

-- `StrategySignal.strength` is between 0 and 1, or the model is refused.
abbrev pub is_strength : Decimal → Bool
is_strength d = at_most nought d && at_most d (of_ℕ 1)

module _ {F : Type 0} ⦃fl : Floats F⦄ where
  -- `x or default`: a value of 0.0 is passed over.
  abbrev pub or_default : Option F → F → F
  or_default none d = d
  or_default (some x) d = if is_true_float x then x else d

  -- `_strength`
  unfoldable pub strength_in : F → F → F → Decimal
  strength_in value lo hi =
      let one = fl.of_ℕ 1 in
      let pct = fmax (fl.of_ℕ 0) (fmin one (fl.fdiv (fl.fsub value lo) (fl.fsub hi lo))) in
      if fl.feq hi lo then fl.to_decimal (fl.ratio 1 2) else fl.to_decimal (fl.round_to pct 4)

  unfoldable pub trend_of : Option F → Option F → F
  trend_of (some fast) (some slow) =
      if is_true_float slow then fl.fdiv (fl.fsub fast slow) slow else fl.of_ℕ 0
  trend_of _ _ = fl.of_ℕ 0

  unfoldable pub mean_reversion : F → F
  mean_reversion rsi =
      if fl.fle rsi (fl.of_ℕ 30)
      then fl.fdiv (fl.fsub (fl.of_ℕ 30) rsi) (fl.of_ℕ 30)
      else if fl.fle (fl.of_ℕ 70) rsi
      then fl.fdiv (fl.fneg (fl.fsub rsi (fl.of_ℕ 70))) (fl.of_ℕ 30)
      else fl.of_ℕ 0

  unfoldable pub score_of : F → F → F → F → F
  score_of trend mean_rev momentum vol =
      let one = fl.of_ℕ 1 in
      let push = fmax (fmin (fl.fdiv momentum (fmax one vol)) one) (fl.fneg one) in
      fl.fadd (fl.fadd (fl.fmul (fl.ratio 5 10) trend) (fl.fmul (fl.ratio 3 10) mean_rev))
        (fl.fmul (fl.ratio 2 10) push)

  -- The volatility, within 0.02 and 0.2.
  unfoldable pub threshold_of : F → F
  threshold_of vol = fmax (fl.ratio 2 100) (fmin (fl.ratio 2 10) vol)

  unfoldable pub side_of : F → F → SignalSide
  side_of score threshold =
      if fl.flt threshold score
      then long
      else if fl.flt score (fl.fneg threshold)
      then short
      else flat

  unfoldable pub strength_of : SignalSide → F → F → Decimal
  strength_of long score threshold =
      strength_in score threshold (fmax (fl.ratio 5 10) (fl.fmul threshold (fl.of_ℕ 4)))
  strength_of short score threshold =
      strength_in (fl.fneg score) threshold (fmax (fl.ratio 5 10) (fl.fmul threshold (fl.of_ℕ 4)))
  strength_of flat score threshold = nought

  abbrev pub histogram_of : Option (Macd F) → Option F
  histogram_of none = none
  histogram_of (some m) = some m.histogram

  unfoldable pub features_of : Indicators F → Features F
  features_of ind =
      let rsi = or_default ind.rsi (fl.of_ℕ 50) in
      record {
        rsi = rsi;
        trend = trend_of ind.ema_fast ind.ema_slow;
        mean_rev = mean_reversion rsi;
        momentum = or_else (histogram_of ind.macd) (fl.of_ℕ 0);
        volatility = or_default ind.volatility (fl.of_ℕ 0);
        ema_fast = or_default ind.ema_fast (fl.of_ℕ 0);
        ema_slow = or_default ind.ema_slow (fl.of_ℕ 0);
        macd_histogram = or_default (histogram_of ind.macd) (fl.of_ℕ 0);
      }

  unfoldable pub rationale_of : Features F → F → String
  rationale_of f threshold =
      "trend="
      ++ fl.fixed 4 f.trend
      ++ " mean_rev="
      ++ fl.fixed 4 f.mean_rev
      ++ " momentum="
      ++ fl.fixed 4 f.momentum
      ++ " rsi="
      ++ fl.fixed 2 f.rsi
      ++ " vol="
      ++ fl.fixed 4 f.volatility
      ++ " threshold="
      ++ fl.fixed 4 threshold

  unfoldable pub signal_of : String → Features F → StrategySignal F
  signal_of symbol f =
      let threshold = threshold_of f.volatility in
      let score = score_of f.trend f.mean_rev f.momentum f.volatility in
      let side = side_of score threshold in
      record {
        symbol = symbol;
        signal = side;
        strength = strength_of side score threshold;
        features = f;
        rationale = rationale_of f threshold;
      }

  unfoldable pub from_snapshot : MarketSnapshot F → Option (StrategySignal F)
  from_snapshot snap =
      let s = signal_of snap.symbol (features_of snap.indicators) in
      if is_strength s.strength then some s else none
