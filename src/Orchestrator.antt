-- ===== src/Orchestrator.antt =====
-- trade_post/orchestrator/runtime.py: the state of the orchestrator, the autonomous flag and what
-- becomes of an intent. Orchestrator/Portfolio has the portfolio of the paper account,
-- Orchestrator/Cycle the analysis cycle.
pub mod Portfolio
pub mod Cycle
pub mod Gates
pub mod Lifecycle
pub mod Blocked
pub mod Subscriptions
pub mod Startup
pub mod Rounds
pub mod Example
pub mod Tasks
mod Tests
use trade_post.Ai.Breaker.{Breaker}
use trade_post.Base.{
  ℕ, Bool, true, false, not, ◌&&◌, ◌||◌, Option, none, some, List, [], ◌∷◌, if◌then◌else◌,
}
use trade_post.Domain.{OrderIntent, MarketSnapshot, PortfolioSnapshot, RiskDecision}
use trade_post.Execution.{Execution}
use trade_post.Execution.Submit.{Outcome, returned, raised, Env, submit}
use trade_post.Floats.{Floats}
use trade_post.Market.Service.{MarketData}
use trade_post.Risk.{Engine}
use trade_post.Risk.Validate.{Verdict, decided, frozen_instance, zero_division, validate}

pub record Orchestrator (F : Type 0) : Type 0 where
  pub execution : Execution F
  pub market : MarketData F
  pub breaker : Breaker  -- of the language model's client
  pub autonomous_enabled : Bool

-- An intent with the snapshot and the portfolio it was made for. `seen` and `now` are the clock in
-- `validate`.
pub record Proposal (F : Type 0) : Type 0 where
  pub intent : OrderIntent
  pub snap : MarketSnapshot F
  pub portfolio : PortfolioSnapshot
  pub seen : ℕ
  pub now : ℕ
  pub env : Env F

-- How the analysis of a symbol ends. An exception ends the cycle.
pub data Traded : Type 0 where
  skipped : Traded
  rejected : RiskDecision → Traded
  submitted : Outcome → Traded
  escaped : Traded

module _ {F : Type 0} ⦃fl : Floats F⦄ where
  unfoldable pub is_autonomous_running : Orchestrator F → Bool
  is_autonomous_running o = o.autonomous_enabled && not o.execution.risk.state.killed

  unfoldable pub set_autonomous : Bool → Orchestrator F → Orchestrator F
  set_autonomous on o = record o { autonomous_enabled = on }

  module _ (up : ℕ → Bool) where
    unfoldable pub submit_approved : Env F → OrderIntent → Execution F → Traded × Execution F
    submit_approved env intent x =
        let (r, x') = submit up env intent x in
        elim r [ returned o ↦ (submitted (returned o), x') | raised why ↦ (escaped, x') ]

    unfoldable pub on_verdict : Env F → OrderIntent → Execution F → Verdict → Traded × Execution F
    on_verdict env intent x (decided d) =
        if d.approved then submit_approved env intent x else (rejected d, x)
    on_verdict env intent x frozen_instance = (escaped, x)
    on_verdict env intent x zero_division = (escaped, x)

    -- The trade of a proposal with nothing else between its steps, which Orchestrator/Tasks has.
    unfoldable pub trade : Proposal F → Execution F → Traded × Execution F
    trade p x =
        let (v, e) = validate up p.seen p.now p.intent p.snap p.portfolio x.risk in
        on_verdict p.env p.intent (record x { risk = e }) v
