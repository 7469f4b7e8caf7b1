-- ===== src/Persistence/Snapshots.antt =====
-- trade_post/persistence/repository.py: the statements on market snapshots, portfolio snapshots and
-- decisions of the brain.
pub mod Laws
use trade_post.Base.{
  ℕ, ◌/◌, String, Bool, not, ◌&&◌, Option, none, some, List, [], ◌∷◌, ◌++◌, ◌==◌, map, reverse,
  str_eq, take, keep_if, any_of, newest_by, if◌then◌else◌,
}
use trade_post.Decimal.{Decimal, is_nonzero}
use trade_post.Domain.{MarketSnapshot, PortfolioSnapshot}
use trade_post.Floats.{Floats}
use trade_post.Persistence.{Database, MarketRow, DecisionRow}

abbrev pub nonzero : Option Decimal → Option Decimal
nonzero none = none
nonzero (some d) = if is_nonzero d then some d else none

abbrev pub market_row : {F : Type 0} → MarketSnapshot F → MarketRow
market_row snap = record {
  symbol = snap.symbol;
  timestamp = snap.timestamp;
  last_price = snap.last_price;
  bid = nonzero snap.bid;
  ask = nonzero snap.ask;
  spread_bps = nonzero snap.spread_bps;
  volume_24h = nonzero snap.volume_24h;
  source = snap.source;
}

-- The id is made of the symbol and of the second.
unfoldable pub has_market_id : MarketRow → MarketRow → Bool
has_market_id r q = str_eq q.symbol r.symbol && q.timestamp / 1_000_000 == r.timestamp / 1_000_000

-- `INSERT OR REPLACE`
unfoldable pub insert_market_snapshot : {F : Type 0} → MarketSnapshot F → Database → Database
unfolding has_market_id
insert_market_snapshot snap db = record db {
  market_snapshots =
      keep_if (λ q. not (has_market_id (market_row snap) q)) db.market_snapshots
      ++ (market_row snap ∷ []);
}

abbrev pub first_row {ℓ} : {A : Type ℓ} → List A → Option A
first_row [] = none
first_row (x ∷ xs) = some x

unfoldable pub latest_market_snapshot : String → Database → Option MarketRow
latest_market_snapshot symbol db =
    first_row
      (newest_by (λ r. r.timestamp) (keep_if (λ r. str_eq r.symbol symbol) db.market_snapshots))

-- The id is a text of the time, made through a float.
unfoldable pub insert_portfolio_snapshot : String → PortfolioSnapshot → Database → Option Database
insert_portfolio_snapshot id snap db =
    if any_of (λ r. str_eq r.0 id) db.portfolio_snapshots
    then none
    else some (record db { portfolio_snapshots = db.portfolio_snapshots ++ ((id, snap) ∷ []) })

-- The time and the equity of the newest snapshots, the oldest of them first.
unfoldable pub list_recent_equity : {F : Type 0} ⦃fl : Floats F⦄ → ℕ → Database → List (ℕ × F)
list_recent_equity ⦃fl⦄ limit db = reverse (
    map (λ r. (r.1.timestamp, fl.of_decimal r.1.total_equity.amount))
      (take limit (newest_by (λ r. r.1.timestamp) db.portfolio_snapshots)))

unfoldable pub insert_ai_decision : DecisionRow → Database → Option Database
insert_ai_decision r db =
    if any_of (λ q. str_eq q.id r.id) db.ai_decisions
    then none
    else some (record db { ai_decisions = db.ai_decisions ++ (r ∷ []) })

unfoldable pub list_recent_ai_decisions : ℕ → Database → List DecisionRow
list_recent_ai_decisions limit db = take limit (newest_by (λ r. r.timestamp) db.ai_decisions)
