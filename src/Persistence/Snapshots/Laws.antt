-- ===== src/Persistence/Snapshots/Laws.antt =====
-- What is read back of the market and of the portfolio.
use mathlib.Core.List.{map}
use trade_post.Base.{
  ℕ, suc, ◌≡◌, ◌≤◌, ◌<◌, ◌/◌, refl, inl, inr, String, true, false, not, some, List, [], ◌∷◌, ◌++◌,
  ◌==◌, arith, str_eq, eq_iff, keep_if, newest_by, newest_by-append, last, last-reverse, take, All,
  Bool-cases,
}
use trade_post.Domain.{MarketSnapshot, PortfolioSnapshot}
use trade_post.Floats.{Floats}
use trade_post.Persistence.{Database, MarketRow}
use trade_post.Persistence.Snapshots.{
  market_row, has_market_id, insert_market_snapshot, latest_market_snapshot,
  insert_portfolio_snapshot, list_recent_equity,
}

-- The row is about another symbol, or it is not later.
abbrev pub IsNoLater : MarketRow → MarketRow → Type 0
IsNoLater r q = (str_eq q.symbol r.symbol ≡ true) → q.timestamp ≤ r.timestamp

module _ (r : MarketRow) where
  older :
      (rows : List MarketRow)
      → All (IsNoLater r) rows
      → All
          (λ q. q.timestamp < r.timestamp)
          (keep_if (λ q. str_eq q.symbol r.symbol) (keep_if (λ q. not (has_market_id r q)) rows))
  unfolding keep_if has_market_id
  older [] h = tt
  older (q ∷ rows) h = elim (Bool-cases (str_eq q.symbol r.symbol)) [
    | inr other ↦ rw (other, keep_if) (rw (other, keep_if) (older rows h.1))
    | inl same ↦ elim (Bool-cases (q.timestamp / 1_000_000 == r.timestamp / 1_000_000)) [
      | inl second ↦ rw (same, second, keep_if) (older rows h.1)
      | inr early ↦
          rw (same, early, keep_if) (rw (same, keep_if) (earlier (h.0 same) early, older rows h.1))
    ]
  ]
    where
      earlier :
          q.timestamp ≤ r.timestamp
          → (q.timestamp / 1_000_000 == r.timestamp / 1_000_000) ≡ false
          → q.timestamp < r.timestamp
      earlier le ne = ground arith

  keep_if-append :
      (rows : List MarketRow)
      → keep_if (λ q. str_eq q.symbol r.symbol) (rows ++ (r ∷ []))
        ≡ keep_if (λ q. str_eq q.symbol r.symbol) rows ++ (r ∷ [])
  unfolding keep_if
  keep_if-append [] = ground (arith, eq_iff r.symbol r.symbol)
  keep_if-append (q ∷ rows) = ground (arith, keep_if-append rows)

-- A market snapshot that is stored is the one that is read back for its symbol, without its
-- indicators and with its zeros as missing numbers, provided that no stored row of the symbol is
-- later.
latest-insert_market_snapshot :
    {F : Type 0} (snap : MarketSnapshot F) (db : Database)
    → All (IsNoLater (market_row snap)) db.market_snapshots
    → latest_market_snapshot snap.symbol (insert_market_snapshot snap db) ≡ some (market_row snap)
unfolding latest_market_snapshot insert_market_snapshot
latest-insert_market_snapshot snap db h =
    let r = market_row snap in
    rw (keep_if-append r (keep_if (λ q. not (has_market_id r q)) db.market_snapshots))
      (rw (newest_by-append (λ q. q.timestamp) r _ (older r db.market_snapshots h)) refl)

-- The newest equity that the dashboard reads is that of the snapshot which was stored last, provided
-- that every stored snapshot is earlier.
last-list_recent_equity :
    {F : Type 0} ⦃fl : Floats F⦄ (limit : ℕ) (id : String) (snap : PortfolioSnapshot)
    (db db' : Database)
    → All (λ r. r.1.timestamp < snap.timestamp) db.portfolio_snapshots
    → insert_portfolio_snapshot id snap db ≡ some db'
    → last (list_recent_equity (suc limit) db')
      ≡ some (snap.timestamp, fl.of_decimal snap.total_equity.amount)
unfolding insert_portfolio_snapshot list_recent_equity
last-list_recent_equity {F} ⦃fl⦄ limit id snap db db' h stored = rw grown (
    rw (newest_by-append (λ r. r.1.timestamp) (id, snap) db.portfolio_snapshots h) (
      last-reverse _ (
        map {A = String × PortfolioSnapshot} {B = ℕ × F} read
          (take limit (newest_by (λ r. r.1.timestamp) db.portfolio_snapshots)))))
  where
    grown : db'.portfolio_snapshots ≡ db.portfolio_snapshots ++ ((id, snap) ∷ [])
    grown = ground arith

    read : String × PortfolioSnapshot → ℕ × F
    read r = (r.1.timestamp, fl.of_decimal r.1.total_equity.amount)
