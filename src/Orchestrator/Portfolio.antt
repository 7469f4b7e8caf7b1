-- ===== src/Orchestrator/Portfolio.antt =====
-- trade_post/orchestrator/runtime.py: `_current_portfolio` and `_take_portfolio_snapshot`. The
-- readings of the clock while a portfolio is made count as one.
use trade_post.Base.{
  ℕ, String, Bool, true, Option, none, some, List, [], ◌∷◌, map, if◌then◌else◌, or_else,
}
use trade_post.Decimal.{Decimal, nought, less, sub, mul, div}
use trade_post.Dict.{Dict}
use trade_post.Domain.{Position, PortfolioSnapshot}
use trade_post.Execution.{Execution, PaperAccount, PaperPosition, is_simulated}
use trade_post.Execution.Submit.{on_db}
use trade_post.Floats.{Floats}
use trade_post.Market.Service.{
  Answered, Fetched, snapshot, exchange_error, other_error, MarketData, get_snapshot,
}
use trade_post.Money.{Money, usdt, zero}
use trade_post.Persistence.RiskRow.{in_session}
use trade_post.Persistence.Snapshots.{insert_portfolio_snapshot}

-- What the exchange answers to a request, with the readings of the clock round it.
pub record Quote (F : Type 0) : Type 0 where
  pub now : ℕ
  pub stored : ℕ
  pub stamped : ℕ
  pub answer : Answered F

abbrev pub balances_of : PaperAccount → List (String × Money)
balances_of a = map (λ b. (b.0, usdt b.1)) a.balances

abbrev pub portfolio_of :
    ℕ → Money → List Position → List (String × Money) → Decimal → PortfolioSnapshot
portfolio_of taken equity positions balances drawdown = record {
  timestamp = taken;
  total_equity = equity;
  available_margin = equity;
  positions = positions;
  base_balances = balances;
  risk_adjusted_equity = equity;
  margin_utilization = nought;
  drawdown_pct = drawdown;
}

-- The loss since the start, as a share of the equity at the start.
unfoldable pub loss_share : Option Money → Decimal → Decimal
loss_share none total = nought
loss_share (some start) total =
    if less nought start.amount then div (sub start.amount total) start.amount else nought

module _ {F : Type 0} ⦃fl : Floats F⦄ where
  abbrev pub snapshot_at : String → Quote F → MarketData F → Fetched F × MarketData F
  snapshot_at symbol q m = get_snapshot true symbol q.now q.stored q.stamped q.answer m

  abbrev pub mark_of : Decimal → Fetched F → Decimal
  mark_of entry (snapshot snap) = snap.last_price
  mark_of entry (exchange_error why) = entry
  mark_of entry other_error = entry

  abbrev pub position_of : ℕ → String → PaperPosition → Fetched F → Position
  position_of taken symbol p f = record {
    symbol = symbol;
    side = p.side;
    quantity = p.quantity;
    entry_price = p.entry_price;
    mark_price = mark_of p.entry_price f;
    unrealized_pnl = usdt (mul (sub (mark_of p.entry_price f) p.entry_price) p.quantity);
    leverage = p.leverage;
    liquidation_price = none;
    opened_at = taken;
    updated_at = taken;
  }

  -- The loop over the paper positions, which may fill the cache of the market data service.
  unfoldable pub positions_of :
      (String → Quote F) → ℕ → Dict PaperPosition → MarketData F → List Position × MarketData F
  positions_of quotes taken [] m = ([], m)
  positions_of quotes taken ((symbol, p) ∷ d) m =
      let (f, m') = snapshot_at symbol (quotes symbol) m in
      let (ps, m'') = positions_of quotes taken d m' in (position_of taken symbol p f ∷ ps, m'')

  -- `_current_portfolio`
  unfoldable pub current_portfolio :
      (String → Quote F) → ℕ → Execution F → MarketData F → PortfolioSnapshot × MarketData F
  current_portfolio quotes taken x m =
      if is_simulated x.risk.settings
      then (
        portfolio_of taken (usdt x.paper.equity) (positions_of quotes taken x.paper.positions m).0
            (balances_of x.paper) nought,
        (positions_of quotes taken x.paper.positions m).1,
      )
      else (portfolio_of taken (zero "USDT") [] [] nought, m)

  -- The snapshot that `_take_portfolio_snapshot` stores.
  unfoldable pub snapshot_taken :
      (String → Quote F) → ℕ → Execution F → MarketData F → PortfolioSnapshot × MarketData F
  unfolding loss_share
  snapshot_taken quotes taken x m =
      let start = x.risk.state.starting_equity in
      if is_simulated x.risk.settings
      then (
        portfolio_of taken (usdt x.paper.equity) (positions_of quotes taken x.paper.positions m).0
            (balances_of x.paper) (loss_share start x.paper.equity),
        (positions_of quotes taken x.paper.positions m).1,
      )
      else (portfolio_of taken (zero "USDT") [] [] (loss_share start nought), m)

  -- `id` is the key of the new row. What fails is logged by the loop that calls this.
  unfoldable pub take_portfolio_snapshot :
      (ℕ → Bool)
      → String
      → (String → Quote F)
      → ℕ
      → Execution F
      → MarketData F
      → Execution F × MarketData F
  unfolding in_session
  take_portfolio_snapshot up id quotes taken x m =
      let (pf, m') = snapshot_taken quotes taken x m in
      (on_db (in_session up (λ db. or_else (insert_portfolio_snapshot id pf db) db)) x, m')
