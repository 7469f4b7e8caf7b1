-- ===== src/Risk/Tables.antt =====
-- The risk engine writes to no other table than the row of its own state.
use trade_post.Base.{ℕ, ◌≡◌, inl, inr, String, Bool, arith, Option-cases}
use trade_post.Decimal.{Decimal}
use trade_post.Domain.{MarketSnapshot, OrderIntent, PortfolioSnapshot}
use trade_post.Floats.{Floats}
use trade_post.Money.{Money}
use trade_post.Persistence.RiskRow.{upsert_risk_state, in_session}
use trade_post.Risk.{Engine, persist, kill}
use trade_post.Risk.Validate.{Checks, check_drawdown, validate, anchor}

pub record IsTableSafe {F : Type 0} (e e' : Engine F) : Type 0 where
  pub orders_same : e'.db.orders ≡ e.db.orders
  pub fills_same : e'.db.fills ≡ e.db.fills

module _ {F : Type 0} (up : ℕ → Bool) where
  pub persist-IsTableSafe : (e : Engine F) → IsTableSafe e (persist up e)
  unfolding persist upsert_risk_state in_session
  persist-IsTableSafe e = ground arith

  pub kill-IsTableSafe : (now : ℕ) (why : String) (e : Engine F) → IsTableSafe e (kill up now why e)
  unfolding kill
  kill-IsTableSafe now why e = grind (arith, persist-IsTableSafe)

module _ {F : Type 0} ⦃fl : Floats F⦄ (up : ℕ → Bool) where
  pub anchor-IsTableSafe :
      (m : Money) (e : Engine F) → IsTableSafe e (anchor up e.state.starting_equity m e)
  unfolding anchor
  anchor-IsTableSafe m e = elim (Option-cases e.state.starting_equity) [
    | inl e₀ ↦ rw (e₀, anchor) (grind (arith, persist-IsTableSafe))
    | inr (a, e₀) ↦ rw (e₀, anchor) (ground arith)
  ]

  pub check_drawdown-IsTableSafe :
      (now : ℕ) (m : Money) (c : Checks) (i : OrderIntent) (snap : MarketSnapshot F)
      (pf : PortfolioSnapshot) (start : Decimal) (e : Engine F)
      → IsTableSafe e (check_drawdown up now m c i snap pf start e).1
  unfolding check_drawdown
  check_drawdown-IsTableSafe now m c i snap pf start e = grind (arith, kill-IsTableSafe)

  pub validate-IsTableSafe :
      (seen now : ℕ) (i : OrderIntent) (snap : MarketSnapshot F) (pf : PortfolioSnapshot)
      (e : Engine F)
      → IsTableSafe e (validate up seen now i snap pf e).1
  unfolding validate
  validate-IsTableSafe seen now i snap pf e =
      grind (arith, anchor-IsTableSafe pf.total_equity e, check_drawdown-IsTableSafe)
