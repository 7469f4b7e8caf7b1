-- ===== src/Orchestrator/Blocked.antt =====
-- A kill switch that trips, or a circuit that opens, between or within the cycles.
use trade_post.Base.{ℕ, suc, ◌≡◌, refl, ◌∙◌, String, Bool, Option, none, some, List, [], ◌∷◌, arith}
use trade_post.Ai.Brain.{AiDecision, Decided, decision, crashed}
use trade_post.Domain.{
  SignalSide, long, short, flat, MarketSnapshot, PortfolioSnapshot, OrderIntent,
}
use trade_post.Execution.{Execution}
use trade_post.Floats.{Floats}
use trade_post.Market.Service.{Fetched, snapshot, exchange_error, other_error}
use trade_post.Orchestrator.{
  Orchestrator, Traded, skipped, rejected, submitted, escaped, set_autonomous,
}
use trade_post.Orchestrator.Cycle.{
  Outside, Scan, store_decision, intent_of, propose, act, on_decision, on_features, on_signal,
  on_fetched, analyse, analyse_all, run_one_ai_cycle, decision_row,
}
use trade_post.Orchestrator.Gates.{IsBlocked, trade_blocked}
use trade_post.Persistence.{Database, DecisionRow}
use trade_post.Persistence.Snapshots.{insert_ai_decision}
use trade_post.Strategy.{StrategySignal, from_snapshot}

-- Nothing was traded: the paper account, the state of the risk engine, the orders and the fills.
pub record IsUntraded {F : Type 0} (x y : Execution F) : Type 0 where
  pub paper_same : y.paper ≡ x.paper
  pub settings_same : y.risk.settings ≡ x.risk.settings
  pub state_same : y.risk.state ≡ x.risk.state
  pub orders_same : y.risk.db.orders ≡ x.risk.db.orders
  pub fills_same : y.risk.db.fills ≡ x.risk.db.fills

IsUntraded-refl : {F : Type 0} (x : Execution F) → IsUntraded x x
IsUntraded-refl x = ground arith

IsUntraded-trans :
    {F : Type 0} {x y z : Execution F} → IsUntraded x y → IsUntraded y z → IsUntraded x z
IsUntraded-trans p q = record {
  paper_same = q.paper_same ∙ p.paper_same;
  settings_same = q.settings_same ∙ p.settings_same;
  state_same = q.state_same ∙ p.state_same;
  orders_same = q.orders_same ∙ p.orders_same;
  fills_same = q.fills_same ∙ p.fills_same;
}

store_decision-same :
    (up : ℕ → Bool) (row : DecisionRow) (db : Database)
    → ((store_decision up row db).1.orders ≡ db.orders)
      × ((store_decision up row db).1.fills ≡ db.fills)
unfolding store_decision insert_ai_decision
store_decision-same up row db = ground arith

module _ {F : Type 0} ⦃fl : Floats F⦄ (out : Outside F) (up : ℕ → Bool) where
  propose_blocked :
      (sc : Scan F) (snap : MarketSnapshot F) (pf : PortfolioSnapshot) (i : Option OrderIntent)
      (x : Execution F)
      → IsBlocked x.risk
      → (propose out up sc snap pf i x).1 ≡ x
  unfolding propose
  propose_blocked sc snap pf none x h = refl
  propose_blocked sc snap pf (some i) x h = trade_blocked up _ x h

  act_blocked :
      (sc : Scan F) (snap : MarketSnapshot F) (pf : PortfolioSnapshot) (d : AiDecision F)
      (side : SignalSide) (x : Execution F)
      → IsBlocked x.risk
      → (act out up sc snap pf d side x).1 ≡ x
  unfolding act
  act_blocked sc snap pf d flat x h = refl
  act_blocked sc snap pf d long x h = propose_blocked sc snap pf (intent_of out sc d) x h
  act_blocked sc snap pf d short x h = propose_blocked sc snap pf (intent_of out sc d) x h

  on_decision_blocked :
      (sc : Scan F) (snap : MarketSnapshot F) (pf : PortfolioSnapshot) (d : Decided F)
      (x : Execution F)
      → IsBlocked x.risk
      → IsUntraded x (on_decision out up sc snap pf d x).1
  unfolding on_decision
  on_decision_blocked sc snap pf crashed x h = IsUntraded-refl x
  on_decision_blocked sc snap pf (decision d) x h = ground (
    arith,
    store_decision-same up (decision_row d) x.risk.db,
    act_blocked sc snap pf d d.signal
        (record x {
          risk = record x.risk { db = (store_decision up (decision_row d) x.risk.db).1 };
        })
        h,
  )

  on_signal_blocked :
      (sc : Scan F) (snap : MarketSnapshot F) (sig : Option (StrategySignal F)) (o : Orchestrator F)
      → IsBlocked o.execution.risk
      → IsUntraded o.execution (on_features out up sc snap sig o).1.execution
  unfolding on_features on_signal
  on_signal_blocked sc snap none o h = IsUntraded-refl o.execution
  on_signal_blocked sc snap (some sig) o h = on_decision_blocked sc snap _ _ o.execution h

  on_fetched_blocked :
      (sc : Scan F) (f : Fetched F) (o : Orchestrator F)
      → IsBlocked o.execution.risk
      → IsUntraded o.execution (on_fetched out up sc f o).1.execution
  unfolding on_fetched
  on_fetched_blocked sc (exchange_error why) o h = IsUntraded-refl o.execution
  on_fetched_blocked sc other_error o h = IsUntraded-refl o.execution
  on_fetched_blocked sc (snapshot snap) o h = on_signal_blocked sc snap (from_snapshot snap) o h

  pub analyse_blocked :
      (sc : Scan F) (symbol : String) (o : Orchestrator F)
      → IsBlocked o.execution.risk
      → IsUntraded o.execution (analyse out up sc symbol o).1.execution
  unfolding analyse
  analyse_blocked sc symbol o h = on_fetched_blocked sc _ _ h

  IsUntraded-IsBlocked : {x y : Execution F} → IsUntraded x y → IsBlocked x.risk → IsBlocked y.risk
  IsUntraded-IsBlocked same h = ground (arith, same.state_same)

  analyse_all_blocked :
      (scans : ℕ → Scan F) (n : ℕ) (symbols : List String) (o : Orchestrator F)
      → IsBlocked o.execution.risk
      → IsUntraded o.execution (analyse_all out up scans n symbols o).1.execution
  unfolding analyse_all
  analyse_all_blocked scans n [] o h = IsUntraded-refl o.execution
  analyse_all_blocked scans n (symbol ∷ symbols) o h =
      let first = analyse_blocked (scans n) symbol o h in
      after first
        (analyse_all_blocked scans (suc n) symbols (analyse out up (scans n) symbol o).1
          (IsUntraded-IsBlocked first h))
        (analyse out up (scans n) symbol o).0 refl
    where
      after :
          IsUntraded o.execution (analyse out up (scans n) symbol o).1.execution
          → IsUntraded
              (analyse out up (scans n) symbol o).1.execution
              (analyse_all out up scans
                (suc n)
                symbols
                (analyse out up (scans n) symbol o).1).1.execution
          → (t : Traded) → (analyse out up (scans n) symbol o).0 ≡ t
          → IsUntraded o.execution (analyse_all out up scans n (symbol ∷ symbols) o).1.execution
      after first rest skipped e = rw (e, analyse_all) (IsUntraded-trans first rest)
      after first rest (rejected d) e = rw (e, analyse_all) (IsUntraded-trans first rest)
      after first rest (submitted r) e = rw (e, analyse_all) (IsUntraded-trans first rest)
      after first rest escaped e = rw (e, analyse_all) first

-- An instruction to the orchestrator: a whole cycle, the rest of a cycle that was under way when the
-- trading was blocked, or a switch of the flag.
pub data Command (F : Type 0) : Type 0 where
  cycles : (ℕ → Scan F) → Command F
  resumes : (ℕ → Scan F) → ℕ → List String → Command F
  switches : Bool → Command F

module _ {F : Type 0} ⦃fl : Floats F⦄ (out : Outside F) (up : ℕ → Bool) where
  unfoldable pub command : Command F → Orchestrator F → Orchestrator F
  command (cycles scans) o = (run_one_ai_cycle out up scans o).1
  command (resumes scans n symbols) o = (analyse_all out up scans n symbols o).1
  command (switches on) o = set_autonomous on o

  unfoldable pub commands : List (Command F) → Orchestrator F → Orchestrator F
  unfolding command
  commands [] o = o
  commands (c ∷ cs) o = commands cs (command c o)

  command_blocked :
      (c : Command F) (o : Orchestrator F)
      → IsBlocked o.execution.risk
      → IsUntraded o.execution (command c o).execution
  unfolding command run_one_ai_cycle set_autonomous
  command_blocked (switches on) o h = IsUntraded-refl o.execution
  command_blocked (resumes scans n symbols) o h = analyse_all_blocked out up scans n symbols o h
  command_blocked (cycles scans) o h = ground arith

  -- While the kill switch has tripped or the circuit is open, no sequence of cycles, of remainders of
  -- cycles that were under way and of switches of the autonomous flag trades: the paper account, the
  -- state of the risk engine (so the block lasts), the settings, the orders and the fills stay.
  pub commands_blocked :
      (cs : List (Command F)) (o : Orchestrator F)
      → IsBlocked o.execution.risk
      → IsUntraded o.execution (commands cs o).execution
  unfolding commands
  commands_blocked [] o h = IsUntraded-refl o.execution
  commands_blocked (c ∷ cs) o h =
      let first = command_blocked c o h in
      IsUntraded-trans first
        (commands_blocked cs (command c o) (IsUntraded-IsBlocked out up first h))
