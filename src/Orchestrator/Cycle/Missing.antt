-- ===== src/Orchestrator/Cycle/Missing.antt =====
-- An answer of the model that leaves the quantity out.
use trade_post.Base.{
  String, List, ◌∷◌, ℕ, ◌≡◌, ◌≢◌, refl, Bool, false, none, some, arith, Bool-cases, inl, inr,
}
use trade_post.Ai.Baseline.{has_edge}
use trade_post.Ai.Brain.{AiDecision, decision, decide}
use trade_post.Ai.Brain.Answers.{Answers, decide_quantity}
use trade_post.Ai.Schema.{Json, null}
use trade_post.Dict
use trade_post.Dict.{Dict}
use trade_post.Domain.{SignalSide, long, short, flat, MarketSnapshot, PortfolioSnapshot}
use trade_post.Execution.{Execution}
use trade_post.Floats.{Floats}
use trade_post.Orchestrator.{Orchestrator, escaped}
use trade_post.Orchestrator.Cycle.{
  Outside, Scan, store_decision, quantity_of, intent_of, propose, act, on_decision, on_signal,
  on_features, on_fetched, analyse, analyse_all, decision_row,
}
use trade_post.Orchestrator.Portfolio.{snapshot_at, current_portfolio}
use trade_post.Strategy.{StrategySignal, from_snapshot}
use trade_post.Market.Service.{snapshot}

module _ {F : Type 0} ⦃fl : Floats F⦄ (out : Outside F) (up : ℕ → Bool) where
  act_escapes :
      (sc : Scan F) (snap : MarketSnapshot F) (pf : PortfolioSnapshot) (d : AiDecision F)
      (side : SignalSide) (x : Execution F)
      → side ≢ flat
      → Dict.get "quantity" d.raw_output ≡ some null
      → (act out up sc snap pf d side x).0 ≡ escaped
  unfolding act propose intent_of quantity_of
  act_escapes sc snap pf d flat x n h = absurd (n refl)
  act_escapes sc snap pf d long x n h = ground (arith, h)
  act_escapes sc snap pf d short x n h = ground (arith, h)

  on_decision_escapes :
      (sc : Scan F) (snap : MarketSnapshot F) (pf : PortfolioSnapshot) (d : AiDecision F)
      (x : Execution F)
      → d.signal ≢ flat
      → Dict.get "quantity" d.raw_output ≡ some null
      → (on_decision out up sc snap pf (decision d) x).0 ≡ escaped
  unfolding on_decision
  on_decision_escapes sc snap pf d x n h =
      elim (Bool-cases (store_decision up (decision_row d) x.risk.db).0) [
        | inl ok ↦ rw (ok, on_decision) (act_escapes sc snap pf d d.signal _ n h)
        | inr failed ↦ rw (failed, on_decision) refl
      ]

  -- An exception in the analysis of a symbol ends the loop.
  loop_ends :
      (scans : ℕ → Scan F) (n : ℕ) (symbol : String) (symbols : List String) (o : Orchestrator F)
      → (analyse out up (scans n) symbol o).0 ≡ escaped
      → analyse_all out up scans n (symbol ∷ symbols) o
        ≡ (false, (analyse out up (scans n) symbol o).1)
  unfolding analyse_all
  loop_ends scans n symbol symbols o e = rw (e, analyse_all) refl

  signal_escapes :
      (sc : Scan F) (snap : MarketSnapshot F) (sig : StrategySignal F) (o : Orchestrator F)
      (answer : Dict (Json F)) (d : AiDecision F)
      → Answers o.execution.risk.settings sc.server sc.asking o.breaker answer
      → Dict.get "quantity" answer ≡ none
      → has_edge sig ≡ false
      → (decide o.execution.risk.settings out.violations out.wide sc.server sc.asking sig
          snap.last_price
          (current_portfolio sc.marks sc.taken o.execution o.market).0.total_equity.amount
          o.breaker).0
        ≡ decision d
      → d.signal ≢ flat
      → (on_signal out up sc snap sig o).0 ≡ escaped
  unfolding on_signal
  signal_escapes sc snap sig o answer d h absent no_edge decided trades = rw decided (
      on_decision_escapes sc snap _ d o.execution trades (
        decide_quantity o.execution.risk.settings out.violations out.wide sc.server sc.asking sig
          snap.last_price _ o.breaker answer d h absent no_edge decided))

  -- The next symbol of a cycle, whose snapshot is fetched and on which the strategy sees no edge: an
  -- answer of the model that leads to a decision to trade, and that leaves the quantity out, raises in
  -- the analysis, and the loop over the symbols ends with that exception; it has then done what the
  -- analysis of this symbol did and nothing for the symbols that are left.
  pub missing_quantity_escapes :
      (scans : ℕ → Scan F) (n : ℕ) (symbol : String) (symbols : List String)
      (snap : MarketSnapshot F) (sig : StrategySignal F) (o : Orchestrator F)
      (answer : Dict (Json F)) (d : AiDecision F)
      → (snapshot_at symbol (scans n).quote o.market).0 ≡ snapshot snap
      → from_snapshot snap ≡ some sig
      → Answers o.execution.risk.settings (scans n).server (scans n).asking o.breaker answer
      → Dict.get "quantity" answer ≡ none
      → has_edge sig ≡ false
      → (decide o.execution.risk.settings out.violations out.wide
          (scans n).server
          (scans n).asking
          sig
          snap.last_price
          (current_portfolio
            (scans n).marks
            (scans n).taken
            o.execution
            (snapshot_at symbol (scans n).quote o.market).1).0.total_equity.amount
          o.breaker).0
        ≡ decision d
      → d.signal ≢ flat
      → ((analyse out up (scans n) symbol o).0 ≡ escaped)
        × (analyse_all out up scans n (symbol ∷ symbols) o
            ≡ (false, (analyse out up (scans n) symbol o).1))
  unfolding analyse on_fetched on_features
  missing_quantity_escapes scans n symbol symbols snap sig o answer d fetched read h absent no_edge
        decided trades =
      (raises, loop_ends scans n symbol symbols o raises)
    where
      raises : (analyse out up (scans n) symbol o).0 ≡ escaped
      raises =
          rw (fetched, read)
            (signal_escapes (scans n) snap sig
              (record o { market = (snapshot_at symbol (scans n).quote o.market).1 }) answer d h
              absent no_edge decided trades)
