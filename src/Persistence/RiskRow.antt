-- ===== src/Persistence/RiskRow.antt =====
-- trade_post/persistence/repository.py: the single row of the risk state, and the session of
-- persistence/database.py around its writes.
use trade_post.Base.{ℕ, suc, Bool, Option, none, some, if◌then◌else◌}
use trade_post.Money.{Money, usdt}
use trade_post.Domain.{RiskState}
use trade_post.Persistence.{Database}

-- The row keeps amounts only, so a currency comes back as USDT.
abbrev pub reread : Option Money → Option Money
reread none = none
reread (some m) = some (usdt m.amount)

unfoldable pub upsert_risk_state : RiskState → Database → Database
upsert_risk_state s db = record db { risk_state = some s }

unfoldable pub get_risk_state : Database → Option RiskState
get_risk_state db = elim db.risk_state [
  | none ↦ none
  | some s ↦ some (record s {
    starting_equity = reread s.starting_equity;
    daily_realized_pnl = usdt s.daily_realized_pnl.amount;
  })
]

-- `async with db.session()` round a write: it is committed, or it fails and is rolled back.
unfoldable pub in_session : (ℕ → Bool) → (Database → Database) → Database → Database
in_session up write db =
    let tried = record db { attempts = suc db.attempts } in
    if up db.attempts then write tried else tried
