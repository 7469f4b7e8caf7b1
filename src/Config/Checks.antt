-- ===== src/Config/Checks.antt =====
-- trade_post/core/config.py: the field bounds and the two validators of `Settings`.
use Prim.Native.String.{count}
use trade_post.Base.{ℕ, Bool, ◌&&◌, ◌||◌, not, ltb, leb}
use trade_post.Floats.{Floats}
use trade_post.Config.{Settings, is_paper, has_exchange_credentials}

-- `Field(ge=lo, le=hi)` on an integer.
abbrev within : ℕ → ℕ → ℕ → Bool
within lo hi x = leb lo x && leb x hi

module _ {F : Type 0} ⦃fl : Floats F⦄ where
  -- The same on a float, the bounds in hundredths.
  abbrev fwithin : ℕ → ℕ → F → Bool
  fwithin lo hi x = fl.fle (fl.ratio lo 100) x && fl.fle x (fl.ratio hi 100)

  unfoldable pub has_valid_limits : Settings F → Bool
  has_valid_limits s =
      fwithin 1 10000 s.max_position_pct
      && fwithin 10 100000 s.max_portfolio_exposure_pct
      && fwithin 1 10000 s.max_daily_loss_pct
      && fwithin 1 10000 s.max_per_trade_risk_pct
      && within 1 1000 s.max_open_orders
      && fwithin 0 10000 s.max_price_deviation_pct
      && fwithin 0 10000 s.max_spread_pct
      && within 1 3600 s.max_stale_data_sec
      && fl.fle (fl.of_ℕ 0) s.position_size_hard_cap_usd
      && fwithin 0 100000 s.slippage_bps
      && fwithin 1 1000 s.per_trade_risk_pct
      && within 2 200 s.atr_period
      && fwithin 10 2000 s.atr_stop_multiplier

  unfoldable pub has_valid_periods : Settings F → Bool
  has_valid_periods s =
      within 1 86400 s.orphan_age_threshold_sec
      && within 1 1000 s.circuit_breaker_failure_threshold
      && within 1 86400 s.circuit_breaker_window_sec
      && within 1 86400 s.recovery_cooloff_sec
      && within 1 600 s.market_data_poll_sec
      && within 20 5000 s.market_data_ohlcv_limit
      && within 1 43200 s.session_ttl_minutes
      && within 4 16 s.bcrypt_work_factor
      && within 1 1000 s.login_max_attempts_per_ip
      && within 1 10080 s.login_lockout_minutes
      && within 8 128 s.password_min_length

  -- `_warn_default_secret` and `_validate_live_mode_safety`.
  unfoldable pub is_accepted : Settings F → Bool
  unfolding has_valid_limits has_valid_periods
  is_accepted s =
      has_valid_limits s
      && has_valid_periods s
      && not (ltb (count s.session_secret) 32)
      && (is_paper s || has_exchange_credentials s)
