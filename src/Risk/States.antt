-- ===== src/Risk/States.antt =====
-- What each method of the risk engine does to its state.
use trade_post.Base.{
  ℕ, suc, ◌≡◌, String, Bool, true, false, ◌&&◌, some, arith, leb, if◌then◌else◌, Option-cases, inl,
  inr,
}
use trade_post.Config.{Settings}
use trade_post.Decimal.{Decimal}
use trade_post.Domain.{MarketSnapshot, OrderIntent, PortfolioSnapshot, RiskState}
use trade_post.Floats.{Floats}
use trade_post.Money.{Money}
use trade_post.Risk.{
  Engine, with_state, persist, kill, record_failure, record_success, is_cooled_off,
}
use trade_post.Risk.Validate.{Checks, check_drawdown, validate, anchor}

-- What no validation changes, and what it may only set.
pub record Follows {F : Type 0} (e e' : Engine F) : Type 0 where
  pub settings_same : e'.settings ≡ e.settings
  pub failures_same : e'.state.failures_in_window ≡ e.state.failures_in_window
  pub circuit_same : e'.state.circuit_open ≡ e.state.circuit_open
  pub kill_kept : e.state.killed ≡ true → e'.state.killed ≡ true
  pub anchor_kept :
      (m : Money) → e.state.starting_equity ≡ some m → e'.state.starting_equity ≡ some m

module _ {F : Type 0} where
  abbrev anchored_engine : Money → Engine F → Engine F
  anchored_engine m e = with_state (record e.state { starting_equity = some m }) e

  abbrev pub after_failure : Settings F → ℕ → RiskState → RiskState
  after_failure s now r =
      let n = suc r.failures_in_window in
      let counted = record r { failures_in_window = n; last_failure_at = some now } in
      if leb s.circuit_breaker_failure_threshold n
      then record counted { circuit_open = true }
      else counted

  abbrev pub after_success : Settings F → ℕ → RiskState → RiskState
  after_success s now r =
      let cleared = record r { failures_in_window = 0 } in
      if r.circuit_open && is_cooled_off s now r.last_failure_at
      then record cleared { circuit_open = false }
      else cleared

module _ {F : Type 0} (up : ℕ → Bool) where
  pub persist-state : (e : Engine F) → (persist up e).state ≡ e.state
  unfolding persist
  persist-state e = ground arith

  pub persist-settings : (e : Engine F) → (persist up e).settings ≡ e.settings
  unfolding persist
  persist-settings e = ground arith

  -- The state that `kill` leaves, whether or not it could be stored.
  pub kill-state :
      (now : ℕ) (why : String) (e : Engine F)
      → (kill up now why e).state
        ≡ record e.state { killed = true; kill_reason = some why; killed_at = some now }
  unfolding kill
  kill-state now why e = persist-state _

  pub kill-settings :
      (now : ℕ) (why : String) (e : Engine F) → (kill up now why e).settings ≡ e.settings
  unfolding kill
  kill-settings now why e = persist-settings _

  pub record_failure-settings :
      (now : ℕ) (e : Engine F) → (record_failure up now e).settings ≡ e.settings
  unfolding record_failure
  record_failure-settings now e = persist-settings _

  pub record_success-settings :
      (now : ℕ) (e : Engine F) → (record_success up now e).settings ≡ e.settings
  unfolding record_success
  record_success-settings now e = persist-settings _

  pub record_failure-state :
      (now : ℕ) (e : Engine F)
      → (record_failure up now e).state ≡ after_failure e.settings now e.state
  unfolding record_failure
  record_failure-state now e = persist-state _

  pub record_success-state :
      (now : ℕ) (e : Engine F)
      → (record_success up now e).state ≡ after_success e.settings now e.state
  unfolding record_success
  record_success-state now e = persist-state _

module _ {F : Type 0} ⦃fl : Floats F⦄ (up : ℕ → Bool) where
  kill-Follows : (now : ℕ) (why : String) (e : Engine F) → Follows e (kill up now why e)
  kill-Follows now why e = ground (arith, kill-state up now why e, kill-settings up now why e)

  pub anchor-Follows :
      (m : Money) (e : Engine F) → Follows e (anchor up e.state.starting_equity m e)
  unfolding anchor
  anchor-Follows m e = elim (Option-cases e.state.starting_equity) [
    | inl e₀ ↦
        rw (e₀, anchor)
          (ground (
            arith,
            persist-state up (anchored_engine m e),
            persist-settings up (anchored_engine m e),
          ))
    | inr (a, e₀) ↦ rw (e₀, anchor) (ground arith)
  ]

  pub check_drawdown-Follows :
      (now : ℕ) (m : Money) (c : Checks) (i : OrderIntent) (snap : MarketSnapshot F)
      (pf : PortfolioSnapshot) (start : Decimal) (e : Engine F)
      → Follows e (check_drawdown up now m c i snap pf start e).1
  unfolding check_drawdown
  check_drawdown-Follows now m c i snap pf start e = grind (arith, kill-Follows)

  pub validate-Follows :
      (seen now : ℕ) (i : OrderIntent) (snap : MarketSnapshot F) (pf : PortfolioSnapshot)
      (e : Engine F)
      → Follows e (validate up seen now i snap pf e).1
  unfolding validate
  validate-Follows seen now i snap pf e =
      grind (arith, anchor-Follows pf.total_equity e, check_drawdown-Follows)
