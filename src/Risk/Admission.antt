-- ===== src/Risk/Admission.antt =====
-- `RiskEngine.validate` against a list of conditions that names no check and no order of checks.
use trade_post.Base.{
  ℕ, ◌+◌, ◌*◌, ◌≤◌, ◌<◌, ◌≡◌, refl, ◌⊎◌, ◌↔◌, Bool, true, false, Option, none, some, arith, [], ◌∷◌,
}
use trade_post.Config.{Settings}
use trade_post.Decimal.{Decimal, of_ℕ, nought, is_nonzero, mul, ◌≼◌}
use trade_post.Decimal.Order.{not-at_most_iff, not-less_iff}
use trade_post.Domain.{MarketSnapshot, OrderIntent, PortfolioSnapshot, RiskState}
use trade_post.Floats.{Floats, is_true_float}
use trade_post.Money.{Money}
use trade_post.Risk.{Engine, second, persist}
use trade_post.Risk.Checks.{check_state, check_market, is_wide}
use trade_post.Risk.Validate.{
  Verdict, decided, Checks, check_limit, check_open_orders, check_sizing, check_size,
  check_drawdown, validate, is_drawn_down, drawdown, deviation_of, open_count, risk_per_unit,
  max_qty_by_risk, is_sized, equity_cap, hard_cap, anchor, anchored, notional,
}

abbrev pub is_approved : Verdict → Bool
is_approved (decided d) = d.approved
is_approved _ = false

pub state_iff :
    (s : RiskState) → ((check_state s).0 ≡ true) ↔ ((s.killed ≡ false) × (s.circuit_open ≡ false))
unfolding check_state
state_iff s = ground arith

module _ {F : Type 0} ⦃fl : Floats F⦄ where
  -- A limit price is no further from the last price than the settings allow.
  abbrev pub LimitHolds : Settings F → Decimal → Option Decimal → Type 0
  LimitHolds s last none = Unit {0}
  LimitHolds s last (some price) =
      is_nonzero price ≡ true
      → is_nonzero last ≡ true
      → (is_true_float (fl.of_decimal last) ≡ true)
        × (fl.flt s.max_price_deviation_pct (deviation_of last price) ≡ false)

  -- The quantity is within what the volatility allows, where a volatility is known.
  abbrev pub SizingHolds : Settings F → OrderIntent → PortfolioSnapshot → Option F → Type 0
  SizingHolds s intent portfolio none = Unit {0}
  SizingHolds s intent portfolio (some atr) =
      is_sized s atr ≡ true
      → (is_true_float (risk_per_unit s atr) ≡ true)
        × (fl.flt (max_qty_by_risk s atr portfolio) (fl.of_decimal intent.quantity) ≡ false)

  abbrev pub IsNarrow : Settings F → Option Decimal → Type 0
  IsNarrow s none = Unit {0}
  IsNarrow s (some bps) = bps ≼ fl.to_decimal (fl.fmul s.max_spread_pct (fl.of_ℕ 100))

  -- What the caps on the size come after.
  pub record IsTradable (e : Engine F) (seen : ℕ) (snap : MarketSnapshot F)
      (portfolio : PortfolioSnapshot) : Type 0 where
    pub alive : e.state.killed ≡ false
    pub closed : e.state.circuit_open ≡ false
    pub fresh : seen ≤ snap.timestamp + e.settings.max_stale_data_sec * second
    pub narrow : IsNarrow e.settings snap.spread_bps
    pub funded : ¬ (portfolio.total_equity.amount ≼ nought)
    pub undrawn :
        let start = (anchored e.state.starting_equity portfolio.total_equity).amount in
        (start ≼ nought)
        ⊎ (¬ (
            fl.to_decimal e.settings.max_daily_loss_pct
            ≼ mul (drawdown start portfolio.total_equity.amount) (of_ℕ 100)))

  pub record IsCapped (s : Settings F) (intent : OrderIntent) (snap : MarketSnapshot F)
      (portfolio : PortfolioSnapshot) : Type 0 where
    pub within_equity : mul intent.quantity snap.last_price ≼ equity_cap s portfolio
    pub within_hard_cap : mul intent.quantity snap.last_price ≼ hard_cap s

  pub record IsAdmissible (e : Engine F) (seen : ℕ) (intent : OrderIntent) (snap : MarketSnapshot F)
      (portfolio : PortfolioSnapshot) : Type 0 where
    pub tradable : IsTradable e seen snap portfolio
    pub capped : IsCapped e.settings intent snap portfolio
    pub sized : SizingHolds e.settings intent portfolio snap.indicators.atr
    pub room : open_count intent portfolio < e.settings.max_open_orders
    pub priced : LimitHolds e.settings snap.last_price intent.limit_price

  check_limit_iff :
      (s : Settings F) (m : Money) (c : Checks) (last : Decimal) (p : Option Decimal)
      → (is_approved (check_limit s m c last p) ≡ true) ↔ LimitHolds s last p
  unfolding check_limit
  check_limit_iff s m c last none = (λ _. tt, λ _. refl)
  check_limit_iff s m c last (some price) = ground arith

  check_open_orders_iff :
      (s : Settings F) (m : Money) (c : Checks) (i : OrderIntent) (snap : MarketSnapshot F)
      (pf : PortfolioSnapshot)
      → (is_approved (check_open_orders s m c i snap pf) ≡ true)
        ↔ ((open_count i pf < s.max_open_orders) × LimitHolds s snap.last_price i.limit_price)
  unfolding check_open_orders
  check_open_orders_iff s m c i snap pf =
      ground (arith, check_limit_iff s m c snap.last_price i.limit_price)

  check_sizing_iff :
      (s : Settings F) (m : Money) (c : Checks) (i : OrderIntent) (snap : MarketSnapshot F)
      (pf : PortfolioSnapshot) (a : Option F)
      → (is_approved (check_sizing s m c i snap pf a) ≡ true) ↔ (
          SizingHolds s i pf a
          × (open_count i pf < s.max_open_orders)
          × LimitHolds s snap.last_price i.limit_price)
  unfolding check_sizing
  check_sizing_iff s m c i snap pf none = ground (arith, check_open_orders_iff s m c i snap pf)
  check_sizing_iff s m c i snap pf (some a) = ground (arith, check_open_orders_iff s m c i snap pf)

  check_size_iff :
      (s : Settings F) (m : Money) (c : Checks) (i : OrderIntent) (snap : MarketSnapshot F)
      (pf : PortfolioSnapshot)
      → (is_approved (check_size s m c i snap pf) ≡ true) ↔ (
          (m.amount ≼ equity_cap s pf)
          × (m.amount ≼ hard_cap s)
          × SizingHolds s i pf snap.indicators.atr
          × (open_count i pf < s.max_open_orders)
          × LimitHolds s snap.last_price i.limit_price)
  unfolding check_size
  check_size_iff s m c i snap pf = ground (
    arith,
    not-less_iff (equity_cap s pf) m.amount,
    not-less_iff (hard_cap s) m.amount,
    check_sizing_iff s m c i snap pf snap.indicators.atr,
  )

  IsNarrow-iff : (s : Settings F) (b : Option Decimal) → (is_wide s b ≡ false) ↔ IsNarrow s b
  unfolding is_wide
  IsNarrow-iff s none = ground arith
  IsNarrow-iff s (some bps) =
      not-less_iff (fl.to_decimal (fl.fmul s.max_spread_pct (fl.of_ℕ 100))) bps

  pub market_iff :
      (s : Settings F) (seen : ℕ) (snap : MarketSnapshot F)
      → ((check_market s seen snap).0 ≡ true)
        ↔ ((seen ≤ snap.timestamp + s.max_stale_data_sec * second) × IsNarrow s snap.spread_bps)
  unfolding check_market
  market_iff s seen snap = ground (arith, IsNarrow-iff s snap.spread_bps)

  -- The loss limit, on the anchor and the present equity.
  abbrev pub IsUndrawn : Settings F → Decimal → Decimal → Type 0
  IsUndrawn s start equity =
      (start ≼ nought)
      ⊎ (¬ (fl.to_decimal s.max_daily_loss_pct ≼ mul (drawdown start equity) (of_ℕ 100)))

  pub IsUndrawn-iff :
      (s : Settings F) (start equity : Decimal)
      → (is_drawn_down s start equity ≡ false) ↔ IsUndrawn s start equity
  unfolding is_drawn_down
  IsUndrawn-iff s start equity = ground (
    arith,
    not-less_iff nought start,
    not-at_most_iff (fl.to_decimal s.max_daily_loss_pct) (mul (drawdown start equity) (of_ℕ 100)),
  )

  module _ (up : ℕ → Bool) where
    pub anchor-settings :
        (o : Option Money) (m : Money) (e : Engine F) → (anchor up o m e).settings ≡ e.settings
    unfolding anchor persist
    anchor-settings none m e = ground arith
    anchor-settings (some _) m e = refl

    -- `validate` approves an intent exactly when every condition of `IsAdmissible` holds.
    pub validate-IsAdmissible :
        (seen now : ℕ) (intent : OrderIntent) (snap : MarketSnapshot F)
        (portfolio : PortfolioSnapshot) (e : Engine F)
        → (is_approved (validate up seen now intent snap portfolio e).0 ≡ true)
          ↔ IsAdmissible e seen intent snap portfolio
    unfolding validate check_drawdown
    validate-IsAdmissible seen now intent snap portfolio e = ground (
      arith,
      state_iff e.state,
      market_iff e.settings seen snap,
      not-at_most_iff portfolio.total_equity.amount nought,
      IsUndrawn-iff e.settings (anchored e.state.starting_equity portfolio.total_equity).amount
          portfolio.total_equity.amount,
      anchor-settings e.state.starting_equity portfolio.total_equity e,
      check_size_iff e.settings (notional intent snap) (("state", true) ∷ ("market", true) ∷ [])
          intent snap portfolio,
    )
