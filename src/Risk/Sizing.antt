-- ===== src/Risk/Sizing.antt =====
-- `RiskEngine.validate`: the drawdown that trips the kill switch.
use trade_post.Base.{ℕ, ◌≡◌, Bool, true, false, some, arith}
use trade_post.Decimal.{of_ℕ, nought, mul, ◌≼◌}
use trade_post.Decimal.Order.{at_most_iff, not-at_most_iff, not-less_iff}
use trade_post.Domain.{MarketSnapshot, OrderIntent, PortfolioSnapshot}
use trade_post.Floats.{Floats}
use trade_post.Money.{Money}
use trade_post.Risk.{Engine}
use trade_post.Risk.Checks.{check_market}
use trade_post.Risk.Validate.{check_drawdown, validate, is_drawn_down, drawdown, anchor}
use trade_post.Risk.Admission.{state_iff}
use trade_post.Risk.KillSwitch.{refused_by}
use trade_post.Risk.States.{kill-state}

module _ {F : Type 0} ⦃fl : Floats F⦄ (up : ℕ → Bool) where
  -- With a live engine, a good market and some equity, a loss since the anchor at or above the
  -- limit refuses the intent as DRAWDOWN_BLOCKED and trips the kill switch.
  drawdown_kills :
      (seen now : ℕ) (i : OrderIntent) (snap : MarketSnapshot F) (pf : PortfolioSnapshot)
      (e : Engine F) (start : Money)
      → (e.state.killed ≡ false) × (e.state.circuit_open ≡ false)
      → (check_market e.settings seen snap).0 ≡ true
      → ¬ (pf.total_equity.amount ≼ nought)
      → e.state.starting_equity ≡ some start
      → ¬ (start.amount ≼ nought)
      → fl.to_decimal e.settings.max_daily_loss_pct
        ≼ mul (drawdown start.amount pf.total_equity.amount) (of_ℕ 100)
      → let (v, e') = validate up seen now i snap pf e in
        (refused_by v ≡ "DRAWDOWN_BLOCKED")
        × (e'.state.killed ≡ true)
        × (e'.state.killed_at ≡ some now)
  unfolding validate check_drawdown is_drawn_down anchor
  drawdown_kills seen now i snap pf e start alive good funded anchor_is positive lost = grind (
    arith,
    state_iff e.state,
    not-at_most_iff pf.total_equity.amount nought,
    not-less_iff nought start.amount,
    at_most_iff (fl.to_decimal e.settings.max_daily_loss_pct)
        (mul (drawdown start.amount pf.total_equity.amount) (of_ℕ 100)),
    kill-state,
  )
