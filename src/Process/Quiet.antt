-- ===== src/Process/Quiet.antt =====
-- The rounds of the loops that do not trade.
use trade_post.Base.{
  ℕ, suc, ◌≡◌, inl, inr, refl, ◌∙◌, arith, String, Bool, true, List, [], ◌∷◌, Bool-cases, or_else,
}
use trade_post.Domain.{MarketSnapshot, PortfolioSnapshot}
use trade_post.Execution.{Execution}
use trade_post.Execution.Submit.{on_db}
use trade_post.Floats.{Floats}
use trade_post.Market.Service.{Fetched, snapshot}
use trade_post.Orchestrator.{Orchestrator}
use trade_post.Orchestrator.Gates.{IsBlocked}
use trade_post.Orchestrator.Portfolio.{Quote, take_portfolio_snapshot, snapshot_taken}
use trade_post.Orchestrator.Rounds.{
  Audit, store_fetched, stream_symbol, stream_all, portfolio_round, ledger_round,
}
use trade_post.Persistence.{Database}
use trade_post.Persistence.Ledger.{insert_reconciliation}
use trade_post.Persistence.RiskRow.{in_session}
use trade_post.Persistence.Snapshots.{insert_market_snapshot, insert_portfolio_snapshot}
use trade_post.Reconciliation.{reconcile}

-- The paper account, the orders and the fills are the same; a block of the trading and a kill are kept.
pub record IsQuiet {F : Type 0} (x y : Execution F) : Type 0 where
  pub paper_same : y.paper ≡ x.paper
  pub orders_same : y.risk.db.orders ≡ x.risk.db.orders
  pub fills_same : y.risk.db.fills ≡ x.risk.db.fills
  pub block_kept : IsBlocked x.risk → IsBlocked y.risk
  pub kill_kept : x.risk.state.killed ≡ true → y.risk.state.killed ≡ true

pub IsQuiet-refl : {F : Type 0} (x : Execution F) → IsQuiet x x
IsQuiet-refl x = record {
  paper_same = refl;
  orders_same = refl;
  fills_same = refl;
  block_kept = λ h. h;
  kill_kept = λ h. h;
}

pub IsQuiet-trans : {F : Type 0} {x y z : Execution F} → IsQuiet x y → IsQuiet y z → IsQuiet x z
IsQuiet-trans p q = record {
  paper_same = q.paper_same ∙ p.paper_same;
  orders_same = q.orders_same ∙ p.orders_same;
  fills_same = q.fills_same ∙ p.fills_same;
  block_kept = λ h. q.block_kept (p.block_kept h);
  kill_kept = λ h. q.kill_kept (p.kill_kept h);
}

-- A write to other tables than those of the orders and the fills.
pub record KeepsTrades (db db' : Database) : Type 0 where
  pub orders_same : db'.orders ≡ db.orders
  pub fills_same : db'.fills ≡ db.fills

in_session-KeepsTrades :
    (up : ℕ → Bool) (write : Database → Database) (db : Database)
    → ((d : Database) → KeepsTrades d (write d))
    → KeepsTrades db (in_session up write db)
unfolding in_session
in_session-KeepsTrades up write db h = ground (arith, h (record db { attempts = suc db.attempts }))

insert_market_snapshot-KeepsTrades :
    {F : Type 0} (snap : MarketSnapshot F) (db : Database)
    → KeepsTrades db (insert_market_snapshot snap db)
unfolding insert_market_snapshot
insert_market_snapshot-KeepsTrades snap db = record { orders_same = refl; fills_same = refl }

insert_portfolio_snapshot-KeepsTrades :
    (id : String) (pf : PortfolioSnapshot) (db : Database)
    → KeepsTrades db (or_else (insert_portfolio_snapshot id pf db) db)
unfolding insert_portfolio_snapshot
insert_portfolio_snapshot-KeepsTrades id pf db = ground arith

module _ {F : Type 0} ⦃fl : Floats F⦄ where
  pub on_db-IsQuiet :
      (f : Database → Database) (x : Execution F)
      → KeepsTrades x.risk.db (f x.risk.db)
      → IsQuiet x (on_db f x)
  on_db-IsQuiet f x kept = record {
    paper_same = refl;
    orders_same = kept.orders_same;
    fills_same = kept.fills_same;
    block_kept = λ h. h;
    kill_kept = λ h. h;
  }

  in_session-IsQuiet :
      (up : ℕ → Bool) (write : Database → Database) (x : Execution F)
      → ((d : Database) → KeepsTrades d (write d))
      → IsQuiet x (on_db (in_session up write) x)
  in_session-IsQuiet up write x keeps =
      on_db-IsQuiet (in_session up write) x (in_session-KeepsTrades up write x.risk.db keeps)

module _ {F : Type 0} ⦃fl : Floats F⦄ (up : ℕ → Bool) where
  store_fetched-IsQuiet :
      (f : Fetched F) (o : Orchestrator F) → IsQuiet o.execution (store_fetched up f o).1.execution
  unfolding store_fetched
  store_fetched-IsQuiet (snapshot snap) o =
      in_session-IsQuiet up (insert_market_snapshot snap) o.execution
        (insert_market_snapshot-KeepsTrades snap)
  store_fetched-IsQuiet f o = IsQuiet-refl o.execution

  stream_symbol-IsQuiet :
      (q : Quote F) (symbol : String) (o : Orchestrator F)
      → IsQuiet o.execution (stream_symbol up q symbol o).1.execution
  unfolding stream_symbol
  stream_symbol-IsQuiet q symbol o = store_fetched-IsQuiet _ _

  pub stream_all-IsQuiet :
      (quotes : ℕ → Quote F) (n : ℕ) (symbols : List String) (o : Orchestrator F)
      → IsQuiet o.execution (stream_all up quotes n symbols o).execution
  unfolding stream_all
  stream_all-IsQuiet quotes n [] o = IsQuiet-refl o.execution
  stream_all-IsQuiet quotes n (symbol ∷ symbols) o =
      let first = stream_symbol-IsQuiet (quotes n) symbol o in
      elim (Bool-cases (stream_symbol up (quotes n) symbol o).0) [
        | inr ended ↦ rw (ended, stream_all) first
        | inl goes_on ↦
            rw (goes_on, stream_all)
              (IsQuiet-trans first (
                stream_all-IsQuiet quotes (suc n) symbols (stream_symbol up (quotes n) symbol o).1))
      ]

  pub portfolio_round-IsQuiet :
      (id : String) (quotes : String → Quote F) (taken : ℕ) (o : Orchestrator F)
      → IsQuiet o.execution (portfolio_round up id quotes taken o).execution
  unfolding portfolio_round take_portfolio_snapshot
  portfolio_round-IsQuiet id quotes taken o =
      let pf = (snapshot_taken quotes taken o.execution o.market).0 in
      in_session-IsQuiet up (λ db. or_else (insert_portfolio_snapshot id pf db) db) o.execution
        (insert_portfolio_snapshot-KeepsTrades id pf)

  pub ledger_round-IsQuiet :
      (a : Audit) (o : Orchestrator F) → IsQuiet o.execution (ledger_round up a o).execution
  unfolding ledger_round reconcile insert_reconciliation
  ledger_round-IsQuiet a o = record {
    paper_same = refl;
    orders_same = ground arith;
    fills_same = ground arith;
    block_kept = λ h. h;
    kill_kept = λ h. h;
  }
