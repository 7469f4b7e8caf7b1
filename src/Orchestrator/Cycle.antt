-- ===== src/Orchestrator/Cycle.antt =====
-- trade_post/orchestrator/runtime.py: `_run_one_ai_cycle`. What it reads of the recent decisions goes
-- into the prompt only.
pub mod Sound
pub mod Missing
pub mod Prepare
use Prim.Native.Char.{Char}
use trade_post.Base.{
  ℕ, suc, String, Bool, true, false, not, ◌&&◌, ◌||◌, Option, none, some, List, [], ◌∷◌,
  if◌then◌else◌,
}
use trade_post.Base.Int.{ℤ}
use trade_post.Ai.Brain.{AiDecision, Decided, decision, crashed, Asking, decide}
use trade_post.Ai.Brain.Intent.{to_intent}
use trade_post.Ai.Chat.{Attempt}
use trade_post.Ai.Schema.{Json, null, flag, whole, double, text, nested}
use trade_post.Decimal.{Decimal, nought, less}
use trade_post.Dict
use trade_post.Dict.{Dict}
use trade_post.Domain.{
  SignalSide, long, short, flat, MarketSnapshot, OrderIntent, PortfolioSnapshot,
}
use trade_post.Execution.{Execution}
use trade_post.Execution.Submit.{Env}
use trade_post.Floats.{Floats}
use trade_post.Market.Service.{Fetched, snapshot, exchange_error, other_error, MarketData}
use trade_post.Orchestrator.{
  Orchestrator, Proposal, Traded, skipped, rejected, submitted, escaped, trade,
}
use trade_post.Orchestrator.Portfolio.{Quote, snapshot_at, current_portfolio}
use trade_post.Persistence.{Database, DecisionRow}
use trade_post.Persistence.Snapshots.{insert_ai_decision}
use trade_post.Strategy.{StrategySignal, from_snapshot}

-- What the code takes from outside of the repository: the schema's validator, the upper case of
-- characters beyond ASCII, the hash and the decimal that a text stands for, if it is finite.
pub record Outside (F : Type 0) : Type 0 where
  pub violations : Dict (Json F) → List String
  pub wide : Char → String
  pub sha256 : String → String
  pub parse_decimal : String → Option Decimal

-- The readings of the clock, the fresh ids and the answers of the outside, for one symbol.
pub record Scan (F : Type 0) : Type 0 where
  pub quote : Quote F
  pub marks : String → Quote F  -- for the positions of the portfolio
  pub taken : ℕ
  pub server : ℕ → Attempt (Dict (Json F))
  pub asking : Asking
  pub intent_id : String
  pub keyed : ℕ
  pub created : ℕ
  pub seen : ℕ
  pub now : ℕ
  pub env : Env F

abbrev pub decision_row : {F : Type 0} → AiDecision F → DecisionRow
decision_row d = record {
  id = d.id;
  symbol = d.symbol;
  signal = d.signal;
  conviction = d.conviction;
  confidence = d.confidence;
  rationale = d.rationale;
  model = d.model;
  prompt_version = d.prompt_version;
  schema_version = d.schema_version;
  validated = d.validated;
  validation_errors = d.validation_errors;
  timestamp = d.timestamp;
  trace_id = d.trace_id;
}

abbrev pub tried : Database → Database
tried db = record db { attempts = suc db.attempts }

-- The session round `insert_ai_decision`: whether it commits, and the database after it.
unfoldable pub store_decision : (ℕ → Bool) → DecisionRow → Database → Bool × Database
store_decision up row db = elim (insert_ai_decision row (tried db)) [
  | none ↦ (false, tried db)
  | some db' ↦ if up db.attempts then (true, db') else (false, tried db)
]

-- `max(Decimal("0"), q)`
abbrev pub no_less_than_nought : Decimal → Decimal
no_less_than_nought q = if less nought q then q else nought

module _ {F : Type 0} ⦃fl : Floats F⦄ where
  -- `Decimal(str(j))`, which raises for all but numbers. What is not finite is refused later, by the
  -- comparison with nought or by the model of an intent.
  unfoldable pub quantity_of : (String → Option Decimal) → Json F → Option Decimal
  quantity_of parse_decimal (whole z) = some (record { coef = z; scale = 0 })
  quantity_of parse_decimal (double x) = if fl.is_finite x then some (fl.to_decimal x) else none
  quantity_of parse_decimal (text s) = parse_decimal s
  quantity_of parse_decimal null = none
  quantity_of parse_decimal (flag b) = none
  quantity_of parse_decimal (nested b s) = none

  abbrev pub quantity_at : (String → Option Decimal) → Option (Json F) → Option Decimal
  quantity_at parse_decimal none = some (fl.to_decimal (fl.of_ℕ 0))
  quantity_at parse_decimal (some j) = quantity_of parse_decimal j

  module _ (out : Outside F) where
    -- The intent of a decision, or an exception.
    unfoldable pub intent_of : Scan F → AiDecision F → Option OrderIntent
    unfolding quantity_of
    intent_of sc d = elim (quantity_at out.parse_decimal (Dict.get "quantity" d.raw_output)) [
      | none ↦ none
      | some q ↦ to_intent out.sha256 sc.intent_id sc.keyed sc.created d (no_less_than_nought q)
    ]

    abbrev pub proposal_of :
        Scan F → OrderIntent → MarketSnapshot F → PortfolioSnapshot → Proposal F
    proposal_of sc i snap pf = record {
      intent = i;
      snap = snap;
      portfolio = pf;
      seen = sc.seen;
      now = sc.now;
      env = sc.env;
    }

    module _ (up : ℕ → Bool) where
      unfoldable pub propose :
          Scan F
          → MarketSnapshot F
          → PortfolioSnapshot
          → Option OrderIntent
          → Execution F
          → Traded × Execution F
      propose sc snap pf none x = (escaped, x)
      propose sc snap pf (some i) x = trade up (proposal_of sc i snap pf) x

      unfoldable pub act :
          Scan F
          → MarketSnapshot F
          → PortfolioSnapshot
          → AiDecision F
          → SignalSide
          → Execution F
          → Traded × Execution F
      act sc snap pf d flat x = (skipped, x)
      act sc snap pf d _ x = propose sc snap pf (intent_of sc d) x

      unfoldable pub on_decision :
          Scan F
          → MarketSnapshot F
          → PortfolioSnapshot
          → Decided F
          → Execution F
          → Traded × Execution F
      on_decision sc snap pf crashed x = (escaped, x)
      on_decision sc snap pf (decision d) x =
          let (ok, db) = store_decision up (decision_row d) x.risk.db in
          let x' = record x { risk = record x.risk { db = db } } in
          if ok then act sc snap pf d d.signal x' else (escaped, x')

      abbrev pub with_execution : Orchestrator F → Traded × Execution F → Traded × Orchestrator F
      with_execution o (t, x) = (t, record o { execution = x })

      unfoldable pub on_signal :
          Scan F → MarketSnapshot F → StrategySignal F → Orchestrator F → Traded × Orchestrator F
      on_signal sc snap sig o =
          let (pf, m) = current_portfolio sc.marks sc.taken o.execution o.market in
          let (d, b) =
            decide o.execution.risk.settings out.violations out.wide sc.server sc.asking sig
              snap.last_price pf.total_equity.amount o.breaker in
          with_execution (record o { market = m; breaker = b })
            (on_decision sc snap pf d o.execution)

      -- A strength out of bounds raises.
      unfoldable pub on_features :
          Scan F
          → MarketSnapshot F
          → Option (StrategySignal F)
          → Orchestrator F
          → Traded × Orchestrator F
      on_features sc snap none o = (escaped, o)
      on_features sc snap (some sig) o = on_signal sc snap sig o

      unfoldable pub on_fetched : Scan F → Fetched F → Orchestrator F → Traded × Orchestrator F
      on_fetched sc (exchange_error why) o = (skipped, o)
      on_fetched sc other_error o = (skipped, o)
      on_fetched sc (snapshot snap) o = on_features sc snap (from_snapshot snap) o

      -- One round of the loop over the symbols.
      unfoldable pub analyse : Scan F → String → Orchestrator F → Traded × Orchestrator F
      analyse sc symbol o =
          let (f, m) = snapshot_at symbol sc.quote o.market in
          on_fetched sc f (record o { market = m })

      -- The loop; `n` counts the rounds.
      unfoldable pub analyse_all :
          (ℕ → Scan F) → ℕ → List String → Orchestrator F → Bool × Orchestrator F
      analyse_all scans n [] o = (true, o)
      analyse_all scans n (symbol ∷ symbols) o =
          let (t, o') = analyse (scans n) symbol o in
          elim t [
            | escaped ↦ (false, o')
            | skipped ↦ analyse_all scans (suc n) symbols o'
            | rejected d ↦ analyse_all scans (suc n) symbols o'
            | submitted r ↦ analyse_all scans (suc n) symbols o'
          ]

      -- `_run_one_ai_cycle`, and whether it ends without an exception. The symbols are those that are
      -- subscribed when the loop begins.
      unfoldable pub run_one_ai_cycle : (ℕ → Scan F) → Orchestrator F → Bool × Orchestrator F
      run_one_ai_cycle scans o =
          if not o.autonomous_enabled
          then (true, o)
          else if o.execution.risk.state.killed || o.execution.risk.state.circuit_open
          then (true, o)
          else analyse_all scans 0 o.execution.risk.settings.subscribed_symbols o
