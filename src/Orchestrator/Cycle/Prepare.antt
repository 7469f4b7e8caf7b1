-- ===== src/Orchestrator/Cycle/Prepare.antt =====
-- trade_post/orchestrator/runtime.py: the analysis of a symbol up to its intent, which `validate` takes
-- next, and the rest of the analysis.
use mathlib.Core.Option
use trade_post.Base.{
  ℕ, ◌≡◌, refl, String, Bool, Option, none, some, Bool-cases, Option-cases, inl, inr, if◌then◌else◌,
}
use trade_post.Ai.Brain.{AiDecision, Decided, decision, crashed, decide}
use trade_post.Domain.{SignalSide, long, short, flat, MarketSnapshot, PortfolioSnapshot}
use trade_post.Execution.{Execution}
use trade_post.Floats.{Floats}
use trade_post.Market.Service.{Fetched, snapshot, exchange_error, other_error}
use trade_post.Orchestrator.{Orchestrator, Proposal, trade}
use trade_post.Orchestrator.Cycle.{
  Outside, Scan, decision_row, store_decision, intent_of, proposal_of, propose, act, on_decision,
  on_signal, on_features, on_fetched, analyse,
}
use trade_post.Orchestrator.Portfolio.{snapshot_at, current_portfolio}
use trade_post.Strategy.{StrategySignal, from_snapshot}

module _ {F : Type 0} ⦃fl : Floats F⦄ (out : Outside F) where
  -- A flat decision, and one whose intent cannot be made, propose nothing.
  unfoldable pub proposed_by :
      Scan F
      → MarketSnapshot F
      → PortfolioSnapshot
      → AiDecision F
      → SignalSide
      → Option (Proposal F)
  proposed_by sc snap pf d flat = none
  proposed_by sc snap pf d _ = Option.map (λ i. proposal_of out sc i snap pf) (intent_of out sc d)

  module _ (up : ℕ → Bool) where
    unfoldable pub weigh :
        Scan F
        → MarketSnapshot F
        → PortfolioSnapshot
        → Decided F
        → Execution F
        → Option (Proposal F) × Execution F
    weigh sc snap pf crashed x = (none, x)
    weigh sc snap pf (decision d) x =
        let (ok, db) = store_decision up (decision_row d) x.risk.db in
        let x' = record x { risk = record x.risk { db = db } } in
        (if ok then proposed_by sc snap pf d d.signal else none, x')

    unfoldable pub consider :
        Scan F
        → MarketSnapshot F
        → Option (StrategySignal F)
        → Orchestrator F
        → Option (Proposal F) × Orchestrator F
    unfolding weigh
    consider sc snap none o = (none, o)
    consider sc snap (some sig) o =
        let (pf, m) = current_portfolio sc.marks sc.taken o.execution o.market in
        let (d, b) =
          decide o.execution.risk.settings out.violations out.wide sc.server sc.asking sig
            snap.last_price pf.total_equity.amount o.breaker in
        let (p, x) = weigh sc snap pf d o.execution in
        (p, record o { execution = x; market = m; breaker = b })

    unfoldable pub on_quote :
        Scan F → Fetched F → Orchestrator F → Option (Proposal F) × Orchestrator F
    unfolding consider
    on_quote sc (exchange_error why) o = (none, o)
    on_quote sc other_error o = (none, o)
    on_quote sc (snapshot snap) o = consider sc snap (from_snapshot snap) o

    unfoldable pub prepare : Scan F → String → Orchestrator F → Option (Proposal F) × Orchestrator F
    unfolding on_quote
    prepare sc symbol o =
        let (f, m) = snapshot_at symbol sc.quote o.market in on_quote sc f (record o { market = m })

    -- A trade of what is proposed, if anything is.
    abbrev pub trade_any : Option (Proposal F) → Execution F → Execution F
    trade_any none x = x
    trade_any (some p) x = (trade up p x).1

    act-proposed_by :
        (sc : Scan F) (snap : MarketSnapshot F) (pf : PortfolioSnapshot) (d : AiDecision F)
        (side : SignalSide) (x : Execution F)
        → (act out up sc snap pf d side x).1 ≡ trade_any (proposed_by sc snap pf d side) x
    unfolding act propose proposed_by
    act-proposed_by sc snap pf d flat x = refl
    act-proposed_by sc snap pf d long x = elim (Option-cases (intent_of out sc d)) [
      | inl missing ↦ rw (missing, act, propose, proposed_by) refl
      | inr (i, e) ↦ rw (e, act, propose, proposed_by) refl
    ]
    act-proposed_by sc snap pf d short x = elim (Option-cases (intent_of out sc d)) [
      | inl missing ↦ rw (missing, act, propose, proposed_by) refl
      | inr (i, e) ↦ rw (e, act, propose, proposed_by) refl
    ]

    on_decision-weigh :
        (sc : Scan F) (snap : MarketSnapshot F) (pf : PortfolioSnapshot) (d : Decided F)
        (x : Execution F)
        → (on_decision out up sc snap pf d x).1
          ≡ trade_any (weigh sc snap pf d x).0 (weigh sc snap pf d x).1
    unfolding on_decision weigh
    on_decision-weigh sc snap pf crashed x = refl
    on_decision-weigh sc snap pf (decision d) x =
        elim (Bool-cases (store_decision up (decision_row d) x.risk.db).0) [
          | inl ok ↦ rw (ok, on_decision, weigh) (act-proposed_by sc snap pf d d.signal _)
          | inr failed ↦ rw (failed, on_decision, weigh) refl
        ]

    on_fetched-on_quote :
        (sc : Scan F) (f : Fetched F) (o : Orchestrator F)
        → (on_fetched out up sc f o).1.execution
          ≡ trade_any (on_quote sc f o).0 (on_quote sc f o).1.execution
    unfolding on_fetched on_features on_signal on_quote consider
    on_fetched-on_quote sc (exchange_error why) o = refl
    on_fetched-on_quote sc other_error o = refl
    on_fetched-on_quote sc (snapshot snap) o = features (from_snapshot snap)
      where
        features :
            (sig : Option (StrategySignal F))
            → (on_features out up sc snap sig o).1.execution
              ≡ trade_any (consider sc snap sig o).0 (consider sc snap sig o).1.execution
        features none = refl
        features (some sig) = on_decision-weigh sc snap _ _ o.execution

    -- The analysis of a symbol is the analysis up to its intent and the trade of it.
    pub analyse-prepare :
        (sc : Scan F) (symbol : String) (o : Orchestrator F)
        → (analyse out up sc symbol o).1.execution
          ≡ trade_any (prepare sc symbol o).0 (prepare sc symbol o).1.execution
    unfolding analyse prepare
    analyse-prepare sc symbol o = on_fetched-on_quote sc _ _
