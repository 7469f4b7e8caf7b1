-- ===== src/Risk/KillSwitch.antt =====
-- Any sequence of calls on one risk engine: the kill switch, the anchor of the drawdown and the
-- circuit breaker over time.
use trade_post.Base.{
  ℕ, ◌≡◌, Bool, true, some, List, [], ◌∷◌, ◌++◌, arith, if◌then◌else◌, All, All-append, String,
}
use trade_post.Domain.{MarketSnapshot, OrderIntent, PortfolioSnapshot}
use trade_post.Floats.{Floats}
use trade_post.Money.{Money}
use trade_post.Risk.{Engine, kill, record_failure, record_success}
use trade_post.Risk.Checks.{check_state}
use trade_post.Risk.Validate.{Verdict, decided, validate}
use trade_post.Risk.States.{
  validate-Follows, kill-state, record_failure-state, record_success-state,
}

-- The methods that the other components call between two starts of the process.
pub data Call (F : Type 0) : Type 0 where
  kills : ℕ → String → Call F
  fails : ℕ → Call F
  succeeds : ℕ → Call F
  validates : ℕ → ℕ → OrderIntent → MarketSnapshot F → PortfolioSnapshot → Call F

-- The rule by which a validation was refused, or nothing.
abbrev pub refused_by : Verdict → String
refused_by (decided d) = if d.approved then "" else d.code
refused_by _ = ""

module _ {F : Type 0} ⦃fl : Floats F⦄ (up : ℕ → Bool) where
  -- The engine after a call, and the verdict of a validation.
  unfoldable pub step : Call F → Engine F → List Verdict × Engine F
  step (kills now reason) e = ([], kill up now reason e)
  step (fails now) e = ([], record_failure up now e)
  step (succeeds now) e = ([], record_success up now e)
  step (validates seen now intent snap portfolio) e =
      let (v, e') = validate up seen now intent snap portfolio e in (v ∷ [], e')

  unfoldable pub run : List (Call F) → Engine F → List Verdict × Engine F
  run [] e = ([], e)
  run (c ∷ cs) e = let (vs, e') = step c e in let (ws, e'') = run cs e' in (vs ++ ws, e'')

  killed_refuses :
      (seen now : ℕ) (i : OrderIntent) (snap : MarketSnapshot F) (pf : PortfolioSnapshot)
      (e : Engine F)
      → e.state.killed ≡ true
      → refused_by (validate up seen now i snap pf e).0 ≡ "STATE_BLOCKED"
  unfolding validate check_state
  killed_refuses seen now i snap pf e h = ground arith

  -- One call on a killed engine.
  step_killed :
      (c : Call F) (e : Engine F)
      → e.state.killed ≡ true
      → ((step c e).1.state.killed ≡ true) × All (λ v. refused_by v ≡ "STATE_BLOCKED") (step c e).0
  unfolding step
  step_killed (kills now why) e h = ground (arith, kill-state up now why e)
  step_killed (fails now) e h = ground (arith, record_failure-state up now e)
  step_killed (succeeds now) e h = ground (arith, record_success-state up now e)
  step_killed (validates seen now i snap pf) e h =
      ground (arith, validate-Follows up seen now i snap pf e, killed_refuses seen now i snap pf e)

  -- Once the kill switch has tripped, no sequence of calls resets it, and every validation in the
  -- sequence is refused as STATE_BLOCKED.
  run_killed :
      (cs : List (Call F)) (e : Engine F)
      → e.state.killed ≡ true
      → ((run cs e).1.state.killed ≡ true) × All (λ v. refused_by v ≡ "STATE_BLOCKED") (run cs e).0
  unfolding run
  run_killed [] e h = (h, tt)
  run_killed (c ∷ cs) e h =
      let (k, refused) = step_killed c e h in
      let (k', refused') = run_killed cs (step c e).1 k in (k', All-append _ _ _ refused refused')

  step_anchor :
      (c : Call F) (e : Engine F) (m : Money)
      → e.state.starting_equity ≡ some m
      → (step c e).1.state.starting_equity ≡ some m
  unfolding step
  step_anchor (kills now why) e m h = ground (arith, kill-state up now why e)
  step_anchor (fails now) e m h = ground (arith, record_failure-state up now e)
  step_anchor (succeeds now) e m h = ground (arith, record_success-state up now e)
  step_anchor (validates seen now i snap pf) e m h =
      (validate-Follows up seen now i snap pf e).anchor_kept m h

  -- The equity from which the drawdown is measured, once set, is never changed by any sequence of
  -- calls: the limit on the loss is one for the whole run of the process, not for a day.
  pub run_anchor :
      (cs : List (Call F)) (e : Engine F) (m : Money)
      → e.state.starting_equity ≡ some m
      → (run cs e).1.state.starting_equity ≡ some m
  unfolding run
  run_anchor [] e m h = h
  run_anchor (c ∷ cs) e m h = run_anchor cs (step c e).1 m (step_anchor c e m h)
