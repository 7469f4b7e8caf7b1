-- ===== src/Domain/Records.antt =====
-- trade_post/domain/models.py: the data models of users, sessions, events and the ledger, what the
-- fields of them accept, and `positive_decimal`.
use Prim.Native.String.{count}
use trade_post.Base.{ℕ, refl, String, Bool, ◌&&◌, Option, none, some, [], ◌∷◌, leb, if◌then◌else◌}
use trade_post.Base.Int.{ℤ}
use trade_post.Decimal.{Decimal, at_most, nought}
use trade_post.Domain.Texts.{Enumeration, of_value, IsListed}
use trade_post.Money.{Money}

pub data Role : Type 0 where
  viewer operator admin : Role

pub data EventSeverity : Type 0 where
  debug info warning error critical : EventSeverity

pub data LedgerEntryType : Type 0 where
  trade fee deposit withdrawal adjustment : LedgerEntryType

abbrev pub role_value : Role → String
role_value viewer = "viewer"
role_value operator = "operator"
role_value admin = "admin"

abbrev pub severity_value : EventSeverity → String
severity_value debug = "debug"
severity_value info = "info"
severity_value warning = "warning"
severity_value error = "error"
severity_value critical = "critical"

abbrev pub entry_type_value : LedgerEntryType → String
entry_type_value trade = "trade"
entry_type_value fee = "fee"
entry_type_value deposit = "deposit"
entry_type_value withdrawal = "withdrawal"
entry_type_value adjustment = "adjustment"

abbrev pub roles : Enumeration Role
roles = record { value = role_value; members = viewer ∷ operator ∷ admin ∷ [] }

abbrev pub severities : Enumeration EventSeverity
severities = record {
  value = severity_value;
  members = debug ∷ info ∷ warning ∷ error ∷ critical ∷ [];
}

abbrev pub entry_types : Enumeration LedgerEntryType
entry_types = record {
  value = entry_type_value;
  members = trade ∷ fee ∷ deposit ∷ withdrawal ∷ adjustment ∷ [];
}

pub roles-IsListed : IsListed roles
unfolding of_value
roles-IsListed viewer = refl
roles-IsListed operator = refl
roles-IsListed admin = refl

severities-IsListed : IsListed severities
unfolding of_value
severities-IsListed debug = refl
severities-IsListed info = refl
severities-IsListed warning = refl
severities-IsListed error = refl
severities-IsListed critical = refl

entry_types-IsListed : IsListed entry_types
unfolding of_value
entry_types-IsListed trade = refl
entry_types-IsListed fee = refl
entry_types-IsListed deposit = refl
entry_types-IsListed withdrawal = refl
entry_types-IsListed adjustment = refl

-- The payload is a dictionary of any values.
pub record Event (P : Type 0) : Type 0 where
  pub id : String
  pub timestamp : ℕ
  pub type : String
  pub severity : EventSeverity
  pub actor : String
  pub payload : P
  pub trace_id : Option String
  pub session_id : Option String

pub record User : Type 0 where
  pub id : String
  pub username : String
  pub email : Option String
  pub password_hash : String
  pub role : Role
  pub created_at : ℕ
  pub last_login_at : Option ℕ
  pub failed_login_count : ℕ
  pub locked_until : Option ℕ

pub record Session : Type 0 where
  pub id : String
  pub user_id : String
  pub issued_at : ℕ
  pub expires_at : ℕ
  pub ip : String
  pub user_agent : String
  pub revoked : Bool

-- Frozen.
pub record LedgerEntry (P : Type 0) : Type 0 where
  pub id : String
  pub account_id : String
  pub delta : Decimal
  pub currency : String
  pub balance_after : Decimal
  pub type : LedgerEntryType
  pub reference : String
  pub created_at : ℕ
  pub metadata : P

pub record StrategyEvaluation : Type 0 where
  pub id : String
  pub decision_id : String
  pub order_id : String
  pub symbol : String
  pub entry_price : Decimal
  pub exit_price : Decimal
  pub realized_pnl : Money
  pub return_bps : Decimal
  pub hold_duration_sec : ℤ
  pub score : ℕ
  pub critique : String
  pub timestamp : ℕ

-- `Field(min_length=low, max_length=high)`
abbrev pub has_length : ℕ → ℕ → String → Bool
has_length low high t = leb low (count t) && leb (count t) high

-- What the field of the name accepts.
abbrev pub is_username : String → Bool
is_username name = has_length 3 64 name

-- What the field of the score accepts.
abbrev pub is_score : ℕ → Bool
is_score n = leb 1 n && leb n 10

-- `positive_decimal`: an exception is none. `read` is `Decimal(str(value))`.
unfoldable pub positive_decimal : {V : Type 0} → (V → Option Decimal) → V → Option Decimal
positive_decimal read value = elim (read value) [
  | none ↦ none
  | some d ↦ if at_most d nought then none else some d
]
