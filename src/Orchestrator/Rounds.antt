-- ===== src/Orchestrator/Rounds.antt =====
-- trade_post/orchestrator/runtime.py: one round of each background loop. An exception ends the round
-- and is logged; what the round has changed before stays. The pauses change no state.
use trade_post.Base.{ℕ, suc, String, Bool, true, Option, List, [], ◌∷◌, if◌then◌else◌}
use trade_post.Execution.{Execution}
use trade_post.Execution.Orphans.{OpenOrder, reconcile_orphans}
use trade_post.Execution.Submit.{on_db}
use trade_post.Floats.{Floats}
use trade_post.Market.Service.{Fetched, snapshot, exchange_error, other_error}
use trade_post.Orchestrator.{Orchestrator}
use trade_post.Orchestrator.Portfolio.{Quote, snapshot_at, take_portfolio_snapshot}
use trade_post.Persistence.RiskRow.{in_session}
use trade_post.Persistence.Snapshots.{insert_market_snapshot}
use trade_post.Reconciliation.{Service, reconcile}

-- A run of the reconciliation of the ledger: whether its result is stored, its id and its times.
pub record Audit : Type 0 where
  pub stored : Bool
  pub id : String
  pub started : ℕ
  pub ended : ℕ

module _ {F : Type 0} where
  abbrev pub service_of : Execution F → Service F
  service_of x = record { db = x.risk.db; metrics = x.risk.metrics }

  abbrev pub with_service : Service F → Execution F → Execution F
  with_service v x = record x { risk = record x.risk { db = v.db; metrics = v.metrics } }

module _ {F : Type 0} ⦃fl : Floats F⦄ (up : ℕ → Bool) where
  -- The storing of a snapshot that was fetched, and whether the loop over the symbols goes on.
  unfoldable pub store_fetched : Fetched F → Orchestrator F → Bool × Orchestrator F
  unfolding in_session
  store_fetched (exchange_error why) o = (true, o)
  store_fetched other_error o = (true, o)
  store_fetched (snapshot snap) o = (
    up o.execution.risk.db.attempts,
    record o { execution = on_db (in_session up (insert_market_snapshot snap)) o.execution },
  )

  unfoldable pub stream_symbol : Quote F → String → Orchestrator F → Bool × Orchestrator F
  stream_symbol q symbol o =
      let (f, m) = snapshot_at symbol q o.market in store_fetched f (record o { market = m })

  -- The loop over the symbols; `n` counts them.
  unfoldable pub stream_all : (ℕ → Quote F) → ℕ → List String → Orchestrator F → Orchestrator F
  stream_all quotes n [] o = o
  stream_all quotes n (symbol ∷ symbols) o =
      let (goes_on, o') = stream_symbol (quotes n) symbol o in
      let rest = stream_all quotes (suc n) symbols o' in if goes_on then rest else o'

  -- `_loop_market_stream`
  unfoldable pub market_round : (ℕ → Quote F) → Orchestrator F → Orchestrator F
  market_round quotes o = stream_all quotes 0 o.execution.risk.settings.subscribed_symbols o

  -- `_loop_portfolio_snapshot`
  unfoldable pub portfolio_round : String → (String → Quote F) → ℕ → Orchestrator F → Orchestrator F
  portfolio_round id quotes taken o =
      let (x, m) = take_portfolio_snapshot up id quotes taken o.execution o.market in
      record o { execution = x; market = m }

  -- `_loop_ledger_reconcile`
  unfoldable pub ledger_round : Audit → Orchestrator F → Orchestrator F
  ledger_round a o =
      let (r, v) =
        reconcile a.stored a.id a.started a.ended "system-wallet" (service_of o.execution) in
      record o { execution = with_service v o.execution }

module _ {F : Type 0} ⦃fl : Floats F⦄ (cancels : String → Bool) (now : F) where
  -- `_loop_orphan_reconcile`: what is cancelled at the exchange, and the orchestrator, which stays.
  unfoldable pub orphan_round :
      Option (List (OpenOrder F)) → Orchestrator F → List (OpenOrder F) × Orchestrator F
  orphan_round fetched o = (reconcile_orphans cancels now fetched o.execution, o)
