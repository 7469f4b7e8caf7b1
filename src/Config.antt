-- ===== src/Config.antt =====
-- trade_post/core/config.py: the settings, and the checks that refuse a bad configuration at
-- startup. The environment is not modelled: a settings object is given whole.
pub mod Checks
use trade_post.Base.{ℕ, String, Bool, true, false, ◌&&◌, not, Option, List, str_eq}

pub data TradingMode : Type 0 where
  paper live : TradingMode

pub data ExchangeId : Type 0 where
  kraken binance bybit coinbase : ExchangeId

pub data LogLevel : Type 0 where
  debug info warning error critical : LogLevel

pub data AppEnv : Type 0 where
  development staging production : AppEnv

pub record Settings (F : Type 0) : Type 0 where
  pub app_name : String
  pub app_env : AppEnv
  pub instance_id : String
  pub host : String
  pub port : ℕ
  pub public_host : String
  pub cors_origins : List String
  pub database_url : String
  pub redis_url : Option String
  pub exchange_id : ExchangeId
  pub exchange_api_key : String
  pub exchange_api_secret : String
  pub exchange_sandbox : Bool
  pub ollama_url : String
  pub ollama_api_key : String
  pub ollama_model : String
  pub ollama_timeout_sec : F
  pub ollama_max_retries : ℕ
  pub ollama_circuit_breaker_threshold : ℕ
  pub ollama_circuit_breaker_cooldown_sec : F
  pub ollama_max_concurrent : ℕ
  pub trading_mode : TradingMode
  pub paper_initial_equity : F
  pub max_position_pct : F
  pub max_portfolio_exposure_pct : F
  pub max_daily_loss_pct : F
  pub max_per_trade_risk_pct : F
  pub max_open_orders : ℕ
  pub max_price_deviation_pct : F
  pub max_spread_pct : F
  pub max_stale_data_sec : ℕ
  pub position_size_hard_cap_usd : F
  pub slippage_bps : F
  pub per_trade_risk_pct : F
  pub atr_period : ℕ
  pub atr_stop_multiplier : F
  pub orphan_age_threshold_sec : ℕ
  pub circuit_breaker_failure_threshold : ℕ
  pub circuit_breaker_window_sec : ℕ
  pub recovery_cooloff_sec : ℕ
  pub market_data_poll_sec : ℕ
  pub market_data_ohlcv_limit : ℕ
  pub subscribed_symbols : List String
  pub session_secret : String
  pub session_ttl_minutes : ℕ
  pub bcrypt_work_factor : ℕ
  pub login_max_attempts_per_ip : ℕ
  pub login_lockout_minutes : ℕ
  pub password_min_length : ℕ
  pub drox_admin_password : Option String
  pub log_level : LogLevel
  pub enable_metrics : Bool
  pub enable_prometheus_endpoint : Bool
  pub enable_chaos_test : Bool
  pub enable_demo_seeding : Bool

-- A text is true in Python if it is not empty.
abbrev pub is_true_text : String → Bool
is_true_text s = not (str_eq s "")

abbrev pub is_paper_mode : TradingMode → Bool
is_paper_mode TradingMode.paper = true
is_paper_mode TradingMode.live = false

module _ {F : Type 0} where
  abbrev pub is_paper : Settings F → Bool
  is_paper s = is_paper_mode s.trading_mode

  abbrev pub has_exchange_credentials : Settings F → Bool
  has_exchange_credentials s = is_true_text s.exchange_api_key && is_true_text s.exchange_api_secret
