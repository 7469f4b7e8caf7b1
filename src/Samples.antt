-- ===== src/Samples.antt =====
-- The settings, the market and the intents that the examples run on.
use trade_post.Base.{ℕ, Bool, true, false, Option, none, some, [], ◌∷◌}
use trade_post.Base.Int.{pos}
use trade_post.Config.{Settings, AppEnv, ExchangeId, TradingMode, LogLevel}
use trade_post.Decimal.{Decimal, of_ℕ, nought}
use trade_post.Domain.{
  Indicators, MarketSnapshot, OrderIntent, buy, market, gtc, long, PortfolioSnapshot, RiskState,
}
use trade_post.Metrics.{Metrics}
use trade_post.Money.{usdt}
use trade_post.Persistence.{Database}
use trade_post.Risk.{Engine}

abbrev pub cents : ℕ → Decimal
cents n = record { coef = pos n; scale = 2 }

-- The defaults of config.py.
abbrev pub settings : Settings Decimal
settings = record {
  app_name = "Drox Trade Post";
  app_env = AppEnv.development;
  instance_id = "i";
  host = "0.0.0.0";
  port = 8065;
  public_host = "localhost";
  cors_origins = "http://localhost:8065" ∷ [];
  database_url = "sqlite+aiosqlite:///./trade_post.db";
  redis_url = none;
  exchange_id = ExchangeId.kraken;
  exchange_api_key = "";
  exchange_api_secret = "";
  exchange_sandbox = true;
  ollama_url = "http://localhost:11434";
  ollama_api_key = "";
  ollama_model = "gpt-oss:120b-cloud";
  ollama_timeout_sec = of_ℕ 30;
  ollama_max_retries = 3;
  ollama_circuit_breaker_threshold = 5;
  ollama_circuit_breaker_cooldown_sec = of_ℕ 60;
  ollama_max_concurrent = 4;
  trading_mode = TradingMode.paper;
  paper_initial_equity = of_ℕ 10_000;
  max_position_pct = of_ℕ 2;
  max_portfolio_exposure_pct = of_ℕ 50;
  max_daily_loss_pct = of_ℕ 1;
  max_per_trade_risk_pct = cents 50;
  max_open_orders = 8;
  max_price_deviation_pct = of_ℕ 2;
  max_spread_pct = of_ℕ 1;
  max_stale_data_sec = 30;
  position_size_hard_cap_usd = of_ℕ 1000;
  slippage_bps = of_ℕ 5;
  per_trade_risk_pct = cents 50;
  atr_period = 14;
  atr_stop_multiplier = of_ℕ 2;
  orphan_age_threshold_sec = 300;
  circuit_breaker_failure_threshold = 3;
  circuit_breaker_window_sec = 60;
  recovery_cooloff_sec = 300;
  market_data_poll_sec = 15;
  market_data_ohlcv_limit = 200;
  subscribed_symbols = "BTC/USDT" ∷ "ETH/USDT" ∷ [];
  session_secret = "0123456789abcdef0123456789abcdef";
  session_ttl_minutes = 480;
  bcrypt_work_factor = 12;
  login_max_attempts_per_ip = 8;
  login_lockout_minutes = 15;
  password_min_length = 10;
  drox_admin_password = none;
  log_level = LogLevel.info;
  enable_metrics = true;
  enable_prometheus_endpoint = false;
  enable_chaos_test = false;
  enable_demo_seeding = false;
}

abbrev pub database : Database
database = record {
  orders = [];
  fills = [];
  risk_state = none;
  users = [];
  sessions = [];
  login_attempts = [];
  events = [];
  ledger_entries = [];
  market_snapshots = [];
  portfolio_snapshots = [];
  ai_decisions = [];
  reconciliations = [];
  attempts = 0;
}

abbrev pub metrics : Metrics Decimal
metrics = record { counters = []; gauges = []; histograms = [] }

abbrev pub fresh_state : RiskState
fresh_state = record {
  killed = false;
  kill_reason = none;
  killed_at = none;
  starting_equity = none;
  daily_realized_pnl = usdt nought;
  session_id = "s";
  failures_in_window = 0;
  circuit_open = false;
  last_failure_at = none;
}

abbrev pub engine : Engine Decimal
engine = record {
  settings = settings;
  state = fresh_state;
  bound = true;
  db = database;
  metrics = metrics;
}

abbrev pub indicators : Option Decimal → Indicators Decimal
indicators a = record {
  rsi = none;
  macd = none;
  ema_fast = none;
  ema_slow = none;
  sma = none;
  bollinger = none;
  atr = a;
  vwap = none;
  volatility = none;
}

-- A quote of 100 with the given average true range, taken at time 0.
abbrev pub quote : Option Decimal → MarketSnapshot Decimal
quote a = record {
  symbol = "BTC/USDT";
  timestamp = 0;
  last_price = of_ℕ 100;
  bid = some (of_ℕ 99);
  ask = some (of_ℕ 101);
  spread_bps = some (of_ℕ 20);
  volume_24h = none;
  indicators = indicators a;
  source = "ccxt";
}

abbrev pub intent : Decimal → OrderIntent
intent q = record {
  id = "o1";
  symbol = "BTC/USDT";
  side = buy;
  type = market;
  quantity = q;
  limit_price = none;
  stop_loss_pct = none;
  take_profit_pct = none;
  time_in_force = gtc;
  idempotency_key = "k1";
  strategy_id = "ai";
  signal = long;
  conviction = 5;
  rationale = "r";
  created_at = 0;
  client_request_id = none;
}

abbrev pub portfolio : ℕ → PortfolioSnapshot
portfolio equity = record {
  timestamp = 0;
  total_equity = usdt (of_ℕ equity);
  available_margin = usdt (of_ℕ equity);
  positions = [];
  base_balances = [];
  risk_adjusted_equity = usdt (of_ℕ equity);
  margin_utilization = nought;
  drawdown_pct = nought;
}

-- Every write succeeds.
abbrev pub always : ℕ → Bool
always _ = true
