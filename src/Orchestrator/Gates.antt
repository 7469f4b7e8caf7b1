-- ===== src/Orchestrator/Gates.antt =====
-- What stops the trading: the kill switch, the open circuit and the checks of the risk engine.
use trade_post.Base.{ℕ, ◌≡◌, ◌⊎◌, inl, inr, refl, ◌∙◌, ap, Bool, true, false, arith, Bool-cases}
use trade_post.Domain.{OrderIntent, MarketSnapshot, PortfolioSnapshot}
use trade_post.Execution.{Execution}
use trade_post.Execution.Submit.{Env}
use trade_post.Floats.{Floats}
use trade_post.Orchestrator.{Proposal, on_verdict, trade}
use trade_post.Risk.{Engine}
use trade_post.Risk.Admission.{is_approved, IsAdmissible, validate-IsAdmissible}
use trade_post.Risk.Checks.{check_state}
use trade_post.Risk.Validate.{Verdict, decided, frozen_instance, zero_division, validate}

-- The kill switch has tripped or the circuit is open.
abbrev pub IsBlocked : {F : Type 0} → Engine F → Type 0
IsBlocked e = (e.state.killed ≡ true) ⊎ (e.state.circuit_open ≡ true)

module _ {F : Type 0} ⦃fl : Floats F⦄ (up : ℕ → Bool) where
  blocked_validate :
      (seen now : ℕ) (i : OrderIntent) (snap : MarketSnapshot F) (pf : PortfolioSnapshot)
      (e : Engine F)
      → (e.state.killed ≡ true) ⊎ (e.state.circuit_open ≡ true)
      → (is_approved (validate up seen now i snap pf e).0 ≡ false)
        × ((validate up seen now i snap pf e).1 ≡ e)
  unfolding validate check_state
  blocked_validate seen now i snap pf e h = ground arith

  refused_unchanged :
      (env : Env F) (i : OrderIntent) (x : Execution F) (v : Verdict)
      → is_approved v ≡ false
      → (on_verdict up env i x v).1 ≡ x
  unfolding on_verdict
  refused_unchanged env i x (decided d) h = rw (h, on_verdict) refl
  refused_unchanged env i x frozen_instance h = refl
  refused_unchanged env i x zero_division h = refl

  -- One proposal of a cycle: either the paper account stays as it was, and the risk engine, its
  -- tables included, is as the validation leaves it, or the intent was admissible for the engine,
  -- the market and the portfolio of that moment.
  pub trade-IsAdmissible :
      (p : Proposal F) (x : Execution F)
      → (((trade up p x).1.paper ≡ x.paper)
          × ((trade up p x).1.risk
              ≡ (validate up p.seen p.now p.intent p.snap p.portfolio x.risk).1))
        ⊎ IsAdmissible x.risk p.seen p.intent p.snap p.portfolio
  unfolding trade
  trade-IsAdmissible p x =
      let checked = validate up p.seen p.now p.intent p.snap p.portfolio x.risk in
      elim (Bool-cases (is_approved checked.0)) [
        | inl good ↦
            inr ((validate-IsAdmissible up p.seen p.now p.intent p.snap p.portfolio x.risk).0 good)
        | inr bad ↦
            let same =
              refused_unchanged p.env p.intent (record x { risk = checked.1 }) checked.0 bad in
            inl (ap (λ y. y.paper) same, ap (λ y. y.risk) same)
      ]

  pub trade_blocked : (p : Proposal F) (x : Execution F) → IsBlocked x.risk → (trade up p x).1 ≡ x
  unfolding trade
  trade_blocked p x h =
      let (refused, same) = blocked_validate p.seen p.now p.intent p.snap p.portfolio x.risk h in
      let checked = validate up p.seen p.now p.intent p.snap p.portfolio x.risk in
      refused_unchanged p.env p.intent (record x { risk = checked.1 }) checked.0 refused
      ∙ ap (λ e. record x { risk = e }) same
