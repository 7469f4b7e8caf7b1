-- ===== src/Server/Reading.antt =====
-- trade_post/api/server.py: the handlers that only read. What they encode as texts stands as the value
-- that it encodes.
use trade_post.Base.{
  ℕ, ◌≡◌, refl, String, Bool, false, Option, none, some, List, arith, map, order_by, last,
}
use trade_post.Decimal.{Decimal}
use trade_post.Domain.{Order, OrderSide, OrderStatus, SignalSide, RiskState}
use trade_post.Floats.{Floats}
use trade_post.Money.{Money}
use trade_post.Persistence.{Database, UserRow, DecisionRow, Stamp}
use trade_post.Persistence.Orders.{list_recent_orders}
use trade_post.Persistence.RiskRow.{get_risk_state}
use trade_post.Persistence.Snapshots.{list_recent_equity, list_recent_ai_decisions}
use trade_post.Security.{
  Answer, answer, http_error, Identity, resolve_session, current_user, require_role,
}
use trade_post.Server.{Request, admins}

pub record PublicIdentity : Type 0 where
  pub id : String
  pub username : String
  pub role : String

pub record OrderView : Type 0 where
  pub id : String
  pub symbol : String
  pub side : OrderSide
  pub quantity : Decimal
  pub filled : Decimal
  pub status : OrderStatus
  pub created_at : ℕ

-- A decision without the fields of `_AI_REDACT_FIELDS`.
pub record DecisionView : Type 0 where
  pub id : String
  pub symbol : String
  pub signal : SignalSide
  pub conviction : ℕ
  pub confidence : Decimal
  pub rationale : String
  pub schema_version : String
  pub validated : Bool
  pub validation_errors : List String
  pub timestamp : ℕ
  pub trace_id : Option String

pub record RiskView : Type 0 where
  pub killed : Bool
  pub kill_reason : Option String
  pub circuit_open : Bool
  pub failures_in_window : ℕ
  pub starting_equity : Option Decimal

-- A user without the hash of the password.
pub record UserView : Type 0 where
  pub id : String
  pub username : String
  pub email : Option String
  pub role : String
  pub account_status : String
  pub created_at : ℕ
  pub last_login_at : Option ℕ
  pub updated_at : Option ℕ
  pub failed_login_count : ℕ
  pub locked_until : Option Stamp

abbrev pub order_view : Order → OrderView
order_view o = record {
  id = o.id;
  symbol = o.symbol;
  side = o.side;
  quantity = o.quantity;
  filled = o.filled_quantity;
  status = o.status;
  created_at = o.created_at;
}

-- `_strip_ai_fields`, of a row.
abbrev pub strip_ai_fields : DecisionRow → DecisionView
strip_ai_fields d = record {
  id = d.id;
  symbol = d.symbol;
  signal = d.signal;
  conviction = d.conviction;
  confidence = d.confidence;
  rationale = d.rationale;
  schema_version = d.schema_version;
  validated = d.validated;
  validation_errors = d.validation_errors;
  timestamp = d.timestamp;
  trace_id = d.trace_id;
}

abbrev pub amount_of : Option Money → Option Decimal
amount_of none = none
amount_of (some m) = some m.amount

abbrev pub risk_view : Option RiskState → RiskView
risk_view none = record {
  killed = false;
  kill_reason = none;
  circuit_open = false;
  failures_in_window = 0;
  starting_equity = none;
}
risk_view (some s) = record {
  killed = s.killed;
  kill_reason = s.kill_reason;
  circuit_open = s.circuit_open;
  failures_in_window = s.failures_in_window;
  starting_equity = amount_of s.starting_equity;
}

abbrev pub user_view : UserRow → UserView
user_view u = record {
  id = u.id;
  username = u.username;
  email = u.email;
  role = u.role;
  account_status = u.account_status;
  created_at = u.created_at;
  last_login_at = u.last_login_at;
  updated_at = u.updated_at;
  failed_login_count = u.failed_login_count;
  locked_until = u.locked_until;
}

unfoldable pub list_users : Database → List UserView
list_users db = map user_view (order_by (λ u. u.created_at) db.users)

-- The name and the role of the session's user, if there is one.
unfoldable pub auth_state : Request → Database → Option (String × String)
auth_state r db = elim r.cookie [
  | none ↦ none
  | some sid ↦ elim (resolve_session r.seen r.checked sid db) [
    | none ↦ none
    | some who ↦ some (who.username, who.role)
  ]
]

abbrev pub public_identity : Identity → PublicIdentity
public_identity who = record { id = who.user_id; username = who.username; role = who.role }

-- A handler behind `CurrentUser`.
unfoldable pub reading : {A : Type 0} → Request → Database → (Identity → A) → Answer A
reading r db f = elim (current_user r.seen r.checked r.cookie db) [
  | http_error code ↦ http_error code
  | answer who ↦ answer (f who)
]

unfoldable pub me : Request → Database → Answer PublicIdentity
me r db = reading r db public_identity

unfoldable pub portfolio :
    {F : Type 0} ⦃fl : Floats F⦄ → Request → Database → Answer (Option (ℕ × F) × List OrderView)
portfolio r db =
    reading r db
      (λ _. (last (list_recent_equity 200 db), map order_view (list_recent_orders 25 db)))

unfoldable pub orders_endpoint : Request → Database → Answer (List OrderView)
orders_endpoint r db = reading r db (λ _. map order_view (list_recent_orders 50 db))

unfoldable pub ai_decisions : Request → Database → Answer (List DecisionView)
ai_decisions r db = reading r db (λ _. map strip_ai_fields (list_recent_ai_decisions 50 db))

unfoldable pub risk_state : Request → Database → Answer RiskView
risk_state r db = reading r db (λ _. risk_view (get_risk_state db))

unfoldable pub users_endpoint : Request → Database → Answer (List UserView)
users_endpoint r db = elim (require_role admins r.seen r.checked r.cookie db) [
  | http_error code ↦ http_error code
  | answer who ↦ answer (list_users db)
]

-- The name and the role in an answer of `me`.
abbrev pub named : Answer PublicIdentity → Option (String × String)
named (http_error code) = none
named (answer who) = some (who.username, who.role)

-- The probe of the authentication state reports just the user as whom `me` answers, and nobody exactly
-- where `me` is refused.
pub auth_state-me : (r : Request) (db : Database) → auth_state r db ≡ named (me r db)
unfolding auth_state me reading current_user
auth_state-me r db = by_cookie r.cookie refl
  where
    by_cookie : (c : Option String) → r.cookie ≡ c → auth_state r db ≡ named (me r db)
    by_cookie none e = ground (arith, e)
    by_cookie (some sid) e = ground (arith, e)
