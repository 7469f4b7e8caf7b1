-- ===== src/Process/Trading.antt =====
-- What holds of the execution through any analysis: a predicate that each trade keeps, and each change
-- that is none.
use trade_post.Base.{
  ℕ, suc, ◌≡◌, refl, arith, String, Bool, true, false, not, ◌||◌, Option, none, some, List, [], ◌∷◌,
  Bool-cases, inl, inr, if◌then◌else◌,
}
use trade_post.Ai.Brain.{AiDecision, Decided, decision, crashed}
use trade_post.Domain.{
  SignalSide, long, short, flat, MarketSnapshot, PortfolioSnapshot, OrderIntent,
}
use trade_post.Execution.{Execution}
use trade_post.Floats.{Floats}
use trade_post.Market.Service.{Fetched, snapshot, exchange_error, other_error}
use trade_post.Orchestrator.{
  Orchestrator, Proposal, Traded, skipped, rejected, submitted, escaped, trade,
}
use trade_post.Orchestrator.Cycle.{
  Outside, Scan, decision_row, store_decision, intent_of, propose, act, on_decision, on_signal,
  on_features, on_fetched, analyse, analyse_all, run_one_ai_cycle,
}
use trade_post.Orchestrator.Cycle.Prepare.{weigh, consider, on_quote, prepare}
use trade_post.Persistence.Snapshots.{insert_ai_decision}
use trade_post.Process.Quiet.{IsQuiet, IsQuiet-refl}
use trade_post.Strategy.{StrategySignal, from_snapshot}

module _ {F : Type 0} ⦃fl : Floats F⦄ (out : Outside F) (up : ℕ → Bool) where
  -- The execution after the decision is stored.
  abbrev stored : AiDecision F → Execution F → Execution F
  stored d x = record x {
    risk = record x.risk { db = (store_decision up (decision_row d) x.risk.db).1 };
  }

  stored-IsQuiet : (d : AiDecision F) (x : Execution F) → IsQuiet x (stored d x)
  unfolding store_decision insert_ai_decision
  stored-IsQuiet d x = record {
    paper_same = refl;
    orders_same = ground arith;
    fills_same = ground arith;
    block_kept = λ h. h;
    kill_kept = λ h. h;
  }

  weigh-IsQuiet :
      (sc : Scan F) (snap : MarketSnapshot F) (pf : PortfolioSnapshot) (d : Decided F)
      (x : Execution F)
      → IsQuiet x (weigh out up sc snap pf d x).1
  unfolding weigh
  weigh-IsQuiet sc snap pf crashed x = IsQuiet-refl x
  weigh-IsQuiet sc snap pf (decision d) x = stored-IsQuiet d x

  on_quote-IsQuiet :
      (sc : Scan F) (f : Fetched F) (o : Orchestrator F)
      → IsQuiet o.execution (on_quote out up sc f o).1.execution
  unfolding on_quote consider
  on_quote-IsQuiet sc (exchange_error why) o = IsQuiet-refl o.execution
  on_quote-IsQuiet sc other_error o = IsQuiet-refl o.execution
  on_quote-IsQuiet sc (snapshot snap) o = features (from_snapshot snap)
    where
      features :
          (sig : Option (StrategySignal F))
          → IsQuiet o.execution (consider out up sc snap sig o).1.execution
      features none = IsQuiet-refl o.execution
      features (some sig) = weigh-IsQuiet sc snap _ _ o.execution

  -- The analysis up to the intent is no trade.
  pub prepare-IsQuiet :
      (sc : Scan F) (symbol : String) (o : Orchestrator F)
      → IsQuiet o.execution (prepare out up sc symbol o).1.execution
  unfolding prepare
  prepare-IsQuiet sc symbol o = on_quote-IsQuiet sc _ _

  module _ (P : Execution F → Type 0) (quiet : (x y : Execution F) → IsQuiet x y → P x → P y)
      (traded : (p : Proposal F) (x : Execution F) → P x → P (trade up p x).1) where
    propose_keeps :
        (sc : Scan F) (snap : MarketSnapshot F) (pf : PortfolioSnapshot) (i : Option OrderIntent)
        (x : Execution F)
        → P x
        → P (propose out up sc snap pf i x).1
    unfolding propose
    propose_keeps sc snap pf none x h = h
    propose_keeps sc snap pf (some i) x h = traded _ x h

    act_keeps :
        (sc : Scan F) (snap : MarketSnapshot F) (pf : PortfolioSnapshot) (d : AiDecision F)
        (side : SignalSide) (x : Execution F)
        → P x
        → P (act out up sc snap pf d side x).1
    unfolding act
    act_keeps sc snap pf d flat x h = h
    act_keeps sc snap pf d long x h = propose_keeps sc snap pf (intent_of out sc d) x h
    act_keeps sc snap pf d short x h = propose_keeps sc snap pf (intent_of out sc d) x h

    on_decision_keeps :
        (sc : Scan F) (snap : MarketSnapshot F) (pf : PortfolioSnapshot) (d : Decided F)
        (x : Execution F)
        → P x
        → P (on_decision out up sc snap pf d x).1
    unfolding on_decision
    on_decision_keeps sc snap pf crashed x h = h
    on_decision_keeps sc snap pf (decision d) x h =
        let after = quiet x (stored d x) (stored-IsQuiet d x) h in
        elim (Bool-cases (store_decision up (decision_row d) x.risk.db).0) [
          | inl ok ↦ rw (ok, on_decision) (act_keeps sc snap pf d d.signal (stored d x) after)
          | inr failed ↦ rw (failed, on_decision) after
        ]

    on_fetched_keeps :
        (sc : Scan F) (f : Fetched F) (o : Orchestrator F)
        → P o.execution
        → P (on_fetched out up sc f o).1.execution
    unfolding on_fetched on_features on_signal
    on_fetched_keeps sc (exchange_error why) o h = h
    on_fetched_keeps sc other_error o h = h
    on_fetched_keeps sc (snapshot snap) o h = features (from_snapshot snap)
      where
        features :
            (sig : Option (StrategySignal F)) → P (on_features out up sc snap sig o).1.execution
        features none = h
        features (some sig) = on_decision_keeps sc snap _ _ o.execution h

    pub analyse_keeps :
        (sc : Scan F) (symbol : String) (o : Orchestrator F)
        → P o.execution
        → P (analyse out up sc symbol o).1.execution
    unfolding analyse
    analyse_keeps sc symbol o h = on_fetched_keeps sc _ _ h

    analyse_all_keeps :
        (scans : ℕ → Scan F) (n : ℕ) (symbols : List String) (o : Orchestrator F)
        → P o.execution
        → P (analyse_all out up scans n symbols o).1.execution
    unfolding analyse_all
    analyse_all_keeps scans n [] o h = h
    analyse_all_keeps scans n (symbol ∷ symbols) o h =
        let first = analyse_keeps (scans n) symbol o h in
        after first
          (analyse_all_keeps scans (suc n) symbols (analyse out up (scans n) symbol o).1 first)
          (analyse out up (scans n) symbol o).0 refl
      where
        after :
            P (analyse out up (scans n) symbol o).1.execution
            → P
                (analyse_all out up scans
                  (suc n)
                  symbols
                  (analyse out up (scans n) symbol o).1).1.execution
            → (t : Traded) → (analyse out up (scans n) symbol o).0 ≡ t
            → P (analyse_all out up scans n (symbol ∷ symbols) o).1.execution
        after first rest escaped e = rw (e, analyse_all) first
        after first rest skipped e = rw (e, analyse_all) rest
        after first rest (rejected d) e = rw (e, analyse_all) rest
        after first rest (submitted r) e = rw (e, analyse_all) rest

    either :
        (b : Bool) (r r' : Bool × Orchestrator F)
        → P r.1.execution
        → P r'.1.execution
        → P (if b then r else r').1.execution
    either true r r' h h' = h
    either false r r' h h' = h'

    pub cycle_keeps :
        (scans : ℕ → Scan F) (o : Orchestrator F)
        → P o.execution
        → P (run_one_ai_cycle out up scans o).1.execution
    unfolding run_one_ai_cycle
    cycle_keeps scans o h =
        let state = o.execution.risk.state in
        let symbols = o.execution.risk.settings.subscribed_symbols in
        let all = analyse_all out up scans 0 symbols o in
        let open_or_killed = state.killed || state.circuit_open in
        either (not o.autonomous_enabled) (true, o) (if open_or_killed then (true, o) else all) h
          (either open_or_killed (true, o) all h (analyse_all_keeps scans 0 symbols o h))
