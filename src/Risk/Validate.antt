-- ===== src/Risk/Validate.antt =====
-- trade_post/risk/engine.py: `RiskEngine.validate`, its checks in the order of the source. Each
-- function is the rest of the method from one check on.
use Prim.Native.String.{◌++◌}
use trade_post.Base.{
  ℕ, String, Bool, true, not, ◌&&◌, Option, none, some, List, [], ◌∷◌, leb, count_if, str_eq,
  if◌then◌else◌,
}
use trade_post.Config.{Settings}
use trade_post.Decimal.{Decimal, of_ℕ, nought, less, at_most, is_nonzero, sub, mul, div}
use trade_post.Domain.{MarketSnapshot, OrderIntent, PortfolioSnapshot, Position, RiskDecision}
use trade_post.Floats.{Floats, is_true_float}
use trade_post.Money.{Money, usdt}
use trade_post.Risk.{Engine, with_state, persist, kill}
use trade_post.Risk.Checks.{check_state, check_market, reject}

-- How `validate` ends: with a decision, or with an exception.
pub data Verdict : Type 0 where
  decided : RiskDecision → Verdict
  frozen_instance : Verdict  -- pydantic's refusal to assign to a field of the intent
  zero_division : Verdict

abbrev pub Checks : Type 0
Checks = List (String × Bool)

abbrev approve : Money → Checks → Verdict
approve requested checks = decided (record {
  approved = true;
  reason = "All risk checks passed";
  code = "APPROVED";
  requested_size_usd = requested;
  capped_size_usd = some requested;
  checks = checks;
})

abbrev refuse : Money → String → String → Checks → Verdict
refuse requested why rule checks = decided (reject requested why rule checks)

abbrev pub is_open_in : String → Position → Bool
is_open_in sym p = str_eq p.symbol sym && less nought p.quantity

abbrev pub open_count : OrderIntent → PortfolioSnapshot → ℕ
open_count intent portfolio = count_if (is_open_in intent.symbol) portfolio.positions

abbrev pub drawdown : Decimal → Decimal → Decimal
drawdown start equity = div (sub start equity) start

abbrev pub anchored : Option Money → Money → Money
anchored none equity = equity
anchored (some start) _ = start

module _ {F : Type 0} ⦃fl : Floats F⦄ where
  -- `abs(float(last - limit) / float(last)) * 100.0`
  abbrev pub deviation_of : Decimal → Decimal → F
  deviation_of last price =
      fl.fmul (fl.fabs (fl.fdiv (fl.of_decimal (sub last price)) (fl.of_decimal last)))
        (fl.of_ℕ 100)

  -- The price is compared only if there is a limit price and neither price is 0.
  unfoldable pub check_limit : Settings F → Money → Checks → Decimal → Option Decimal → Verdict
  check_limit s requested checks last none = approve requested checks
  check_limit s requested checks last (some price) =
      if not (is_nonzero price && is_nonzero last)
      then approve requested checks
      else if not (is_true_float (fl.of_decimal last))
      then zero_division
      else if fl.flt s.max_price_deviation_pct (deviation_of last price)
      then refuse requested
          ("Price deviation " ++ fl.fixed 2 (deviation_of last price) ++ "% exceeds limit")
          "PRICE_DEVIATION" checks
      else approve requested checks

  unfoldable pub check_open_orders :
      Settings F → Money → Checks → OrderIntent → MarketSnapshot F → PortfolioSnapshot → Verdict
  check_open_orders s requested checks intent snap portfolio =
      if leb s.max_open_orders (open_count intent portfolio)
      then refuse requested "Max open orders reached" "ORDERS_BLOCKED" checks
      else check_limit s requested checks snap.last_price intent.limit_price

  abbrev pub risk_per_unit : Settings F → F → F
  risk_per_unit s atr = fl.fmul atr s.atr_stop_multiplier

  abbrev pub max_qty_by_risk : Settings F → F → PortfolioSnapshot → F
  max_qty_by_risk s atr portfolio =
      fl.fdiv
        (fl.fmul (fl.of_decimal portfolio.total_equity.amount)
          (fl.fdiv s.per_trade_risk_pct (fl.of_ℕ 100)))
        (risk_per_unit s atr)

  abbrev pub resized : F → Decimal
  resized q = fl.to_decimal (fl.round_to q 8)

  abbrev pub is_sized : Settings F → F → Bool
  is_sized s atr =
      is_true_float atr && fl.flt (fl.of_ℕ 0) atr && fl.flt (fl.of_ℕ 0) s.atr_stop_multiplier

  -- The sizing by volatility. An intent is frozen, so the assignment of a new quantity raises.
  unfoldable pub check_sizing :
      Settings F
      → Money
      → Checks
      → OrderIntent
      → MarketSnapshot F
      → PortfolioSnapshot
      → Option F
      → Verdict
  check_sizing s requested checks intent snap portfolio none =
      check_open_orders s requested checks intent snap portfolio
  check_sizing s requested checks intent snap portfolio (some atr) =
      if not (is_sized s atr)
      then check_open_orders s requested checks intent snap portfolio
      else if not (is_true_float (risk_per_unit s atr))
      then zero_division
      else if not (fl.flt (max_qty_by_risk s atr portfolio) (fl.of_decimal intent.quantity))
      then check_open_orders s requested checks intent snap portfolio
      else if at_most (resized (max_qty_by_risk s atr portfolio)) nought
      then refuse requested "ATR-based risk sizing yielded zero quantity" "RISK_ZERO_QTY" checks
      else frozen_instance

  abbrev pub equity_cap : Settings F → PortfolioSnapshot → Decimal
  equity_cap s portfolio =
      div (mul portfolio.total_equity.amount (fl.to_decimal s.max_position_pct)) (of_ℕ 100)

  abbrev pub hard_cap : Settings F → Decimal
  hard_cap s = fl.to_decimal s.position_size_hard_cap_usd

  unfoldable pub check_size :
      Settings F → Money → Checks → OrderIntent → MarketSnapshot F → PortfolioSnapshot → Verdict
  check_size s requested checks intent snap portfolio =
      if less (equity_cap s portfolio) requested.amount
      then refuse requested
          ("Notional "
            ++ fl.show_decimal requested.amount
            ++ " exceeds "
            ++ fl.show_float s.max_position_pct
            ++ "% cap")
          "SIZE_BLOCKED" checks
      else if less (hard_cap s) requested.amount
      then refuse requested
          ("Notional exceeds hard cap $" ++ fl.show_float s.position_size_hard_cap_usd) "HARD_CAP"
          checks
      else check_sizing s requested checks intent snap portfolio snap.indicators.atr

  -- Whether the loss since the starting equity has reached the limit.
  unfoldable pub is_drawn_down : Settings F → Decimal → Decimal → Bool
  is_drawn_down s start equity =
      less nought start
      && at_most (fl.to_decimal s.max_daily_loss_pct) (mul (drawdown start equity) (of_ℕ 100))

  abbrev pub notional : OrderIntent → MarketSnapshot F → Money
  notional intent snap = usdt (mul intent.quantity snap.last_price)

  module _ (up : ℕ → Bool) where
    -- The equity that the drawdown is measured from is the first one seen, and is stored.
    unfoldable pub anchor : Option Money → Money → Engine F → Engine F
    anchor none equity e =
        persist up (with_state (record e.state { starting_equity = some equity }) e)
    anchor (some _) equity e = e

    unfoldable pub check_drawdown :
        ℕ
        → Money
        → Checks
        → OrderIntent
        → MarketSnapshot F
        → PortfolioSnapshot
        → Decimal
        → Engine F
        → Verdict × Engine F
    unfolding is_drawn_down
    check_drawdown now requested checks intent snap portfolio start e =
        if is_drawn_down e.settings start portfolio.total_equity.amount
        then (
          refuse requested "Daily drawdown exceeded" "DRAWDOWN_BLOCKED" checks,
          kill up now
              ("Daily drawdown "
                ++ fl.fixed 2
                    (fl.of_decimal (mul (drawdown start portfolio.total_equity.amount) (of_ℕ 100)))
                ++ "% exceeded")
              e,
        )
        else (check_size e.settings requested checks intent snap portfolio, e)

    -- `seen` is the clock at the check of the market, `now` at the kill switch.
    unfoldable pub validate :
        ℕ → ℕ → OrderIntent → MarketSnapshot F → PortfolioSnapshot → Engine F → Verdict × Engine F
    validate seen now intent snap portfolio e =
        let requested = notional intent snap in
        let equity = portfolio.total_equity in
        let (state_ok, state_reason) = check_state e.state in
        let (market_ok, market_reason) = check_market e.settings seen snap in
        let state_checks : Checks = ("state", state_ok) ∷ [] in
        let checks : Checks = ("state", state_ok) ∷ ("market", market_ok) ∷ [] in
        if not state_ok
        then (refuse requested state_reason "STATE_BLOCKED" state_checks, e)
        else if not market_ok
        then (refuse requested market_reason "MARKET_BLOCKED" checks, e)
        else if at_most equity.amount nought
        then (refuse requested "No equity" "EQUITY_BLOCKED" checks, e)
        else check_drawdown now requested checks intent snap portfolio
            (anchored e.state.starting_equity equity).amount
            (anchor e.state.starting_equity equity e)
