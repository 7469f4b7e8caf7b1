-- ===== src/Persistence.antt =====
-- trade_post/persistence: the tables that the modelled components share. A table is the list of its
-- rows in the order of insertion, and a statement of repository.py is a function on it. Texts that
-- encode a number, a time or an enumeration stand as the value that they encode.
pub mod Connection
pub mod Ledger
pub mod Migrations
pub mod Orders
pub mod RiskRow
pub mod Snapshots
pub mod Texts
pub mod Users
mod Tests
use trade_post.Base.{ℕ, String, Bool, Option, List}
use trade_post.Decimal.{Decimal}
use trade_post.Domain.{Order, Fill, RiskState, ReconciliationResult, SignalSide, PortfolioSnapshot}

-- `datetime.fromisoformat` of a text: a time, or a `ValueError`.
pub data Stamp : Type 0 where
  moment : ℕ → Stamp
  malformed : Stamp

pub record UserRow : Type 0 where
  pub id : String
  pub username : String
  pub email : Option String
  pub password_hash : String
  pub role : String
  pub created_at : ℕ
  pub last_login_at : Option ℕ
  pub failed_login_count : ℕ
  pub locked_until : Option Stamp
  pub account_status : String
  pub updated_at : Option ℕ

pub record SessionRow : Type 0 where
  pub id : String
  pub user_id : String
  pub issued_at : ℕ
  pub expires_at : ℕ
  pub ip : String
  pub user_agent : String
  pub revoked : Bool
  pub revoked_at : Option ℕ

pub record LoginAttempt : Type 0 where
  pub ip : String
  pub username : String
  pub success : Bool
  pub attempted_at : ℕ

-- An audit line, of which the time, the ids and the payload are left out.
pub record EventRow : Type 0 where
  pub type : String
  pub severity : String
  pub actor : String

pub record LedgerRow : Type 0 where
  pub account_id : String
  pub delta : Decimal
  pub created_at : ℕ

-- A market snapshot without the text of its indicators. A number that is 0 is stored as none.
pub record MarketRow : Type 0 where
  pub symbol : String
  pub timestamp : ℕ
  pub last_price : Decimal
  pub bid : Option Decimal
  pub ask : Option Decimal
  pub spread_bps : Option Decimal
  pub volume_24h : Option Decimal
  pub source : String

-- A decision of the brain without the text of its raw output.
pub record DecisionRow : Type 0 where
  pub id : String
  pub symbol : String
  pub signal : SignalSide
  pub conviction : ℕ
  pub confidence : Decimal
  pub rationale : String
  pub model : String
  pub prompt_version : String
  pub schema_version : String
  pub validated : Bool
  pub validation_errors : List String
  pub timestamp : ℕ
  pub trace_id : Option String

pub record Database : Type 0 where
  pub orders : List Order
  pub fills : List Fill
  pub risk_state : Option RiskState  -- the row with id 1
  pub users : List UserRow
  pub sessions : List SessionRow
  pub login_attempts : List LoginAttempt
  pub events : List EventRow
  pub ledger_entries : List LedgerRow
  pub market_snapshots : List MarketRow
  pub portfolio_snapshots : List (String × PortfolioSnapshot)  -- with the id
  pub ai_decisions : List DecisionRow
  pub reconciliations : List (String × ReconciliationResult)  -- with the account
  pub attempts : ℕ  -- how many transactions were opened; the environment answers each
