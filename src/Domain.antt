-- ===== src/Domain.antt =====
-- trade_post/domain/models.py: the enumerations and the data models. A time is a count of
-- microseconds, an id is its text, and an optional field is an `Option`.
pub mod Texts
pub mod Records
use trade_post.Base.{ℕ, String, Bool, true, false, Option, List}
use trade_post.Decimal.{Decimal}
use trade_post.Money.{Money}

pub data OrderSide : Type 0 where
  buy sell : OrderSide

pub data SignalSide : Type 0 where
  long short flat : SignalSide

pub data OrderType : Type 0 where
  market limit : OrderType

pub data OrderStatus : Type 0 where
  pending submitted partially_filled filled cancelled rejected expired orphaned : OrderStatus

pub data TimeInForce : Type 0 where
  gtc ioc fok : TimeInForce

-- The features that `indicators.compute_all` may leave in the dictionary of a snapshot.
pub record Macd (F : Type 0) : Type 0 where
  pub macd_line : F
  pub signal_line : F
  pub histogram : F

pub record Bands (F : Type 0) : Type 0 where
  pub middle : F
  pub upper : F
  pub lower : F

pub record Indicators (F : Type 0) : Type 0 where
  pub rsi : Option F
  pub macd : Option (Macd F)
  pub ema_fast : Option F
  pub ema_slow : Option F
  pub sma : Option F
  pub bollinger : Option (Bands F)
  pub atr : Option F
  pub vwap : Option F
  pub volatility : Option F

pub record MarketSnapshot (F : Type 0) : Type 0 where
  pub symbol : String
  pub timestamp : ℕ
  pub last_price : Decimal
  pub bid : Option Decimal
  pub ask : Option Decimal
  pub spread_bps : Option Decimal
  pub volume_24h : Option Decimal
  pub indicators : Indicators F
  pub source : String

-- Frozen: an assignment to a field raises.
pub record OrderIntent : Type 0 where
  pub id : String
  pub symbol : String
  pub side : OrderSide
  pub type : OrderType
  pub quantity : Decimal
  pub limit_price : Option Decimal
  pub stop_loss_pct : Option Decimal
  pub take_profit_pct : Option Decimal
  pub time_in_force : TimeInForce
  pub idempotency_key : String
  pub strategy_id : String
  pub signal : SignalSide
  pub conviction : ℕ
  pub rationale : String
  pub created_at : ℕ
  pub client_request_id : Option String

pub record Fill : Type 0 where
  pub id : String
  pub order_id : String
  pub exchange_order_id : String
  pub symbol : String
  pub side : OrderSide
  pub quantity : Decimal
  pub price : Decimal
  pub fee : Money
  pub liquidity : String
  pub timestamp : ℕ

pub record Order : Type 0 where
  pub id : String
  pub intent_id : String
  pub exchange_order_id : Option String
  pub symbol : String
  pub side : OrderSide
  pub type : OrderType
  pub quantity : Decimal
  pub filled_quantity : Decimal
  pub average_price : Option Decimal
  pub status : OrderStatus
  pub limit_price : Option Decimal
  pub stop_loss_pct : Option Decimal
  pub take_profit_pct : Option Decimal
  pub idempotency_key : String
  pub strategy_id : String
  pub signal : SignalSide
  pub conviction : ℕ
  pub rationale : String
  pub created_at : ℕ
  pub submitted_at : Option ℕ
  pub completed_at : Option ℕ
  pub last_error : Option String
  pub trace_id : Option String

-- `Order.is_terminal`; `update_order_status` tests the same four.
abbrev pub is_terminal_status : OrderStatus → Bool
is_terminal_status filled = true
is_terminal_status cancelled = true
is_terminal_status rejected = true
is_terminal_status expired = true
is_terminal_status _ = false

abbrev pub is_terminal : Order → Bool
is_terminal o = is_terminal_status o.status

pub record Position : Type 0 where
  pub symbol : String
  pub side : SignalSide
  pub quantity : Decimal
  pub entry_price : Decimal
  pub mark_price : Decimal
  pub unrealized_pnl : Money
  pub leverage : Decimal
  pub liquidation_price : Option Decimal
  pub opened_at : ℕ
  pub updated_at : ℕ

pub record PortfolioSnapshot : Type 0 where
  pub timestamp : ℕ
  pub total_equity : Money
  pub available_margin : Money
  pub positions : List Position
  pub base_balances : List (String × Money)
  pub risk_adjusted_equity : Money
  pub margin_utilization : Decimal
  pub drawdown_pct : Decimal

pub record RiskDecision : Type 0 where
  pub approved : Bool
  pub reason : String
  pub code : String
  pub requested_size_usd : Money
  pub capped_size_usd : Option Money
  pub checks : List (String × Bool)

pub record RiskState : Type 0 where
  pub killed : Bool
  pub kill_reason : Option String
  pub killed_at : Option ℕ
  pub starting_equity : Option Money
  pub daily_realized_pnl : Money
  pub session_id : String
  pub failures_in_window : ℕ
  pub circuit_open : Bool
  pub last_failure_at : Option ℕ

pub data ReconciliationOutcome : Type 0 where
  pass fail : ReconciliationOutcome

pub record ReconciliationResult : Type 0 where
  pub id : String
  pub run_started_at : ℕ
  pub run_ended_at : Option ℕ
  pub outcome : ReconciliationOutcome
  pub ledger_balance : Decimal
  pub expected_balance : Decimal
  pub tolerance : Decimal
  pub mismatches : List String
  pub passed : Bool
