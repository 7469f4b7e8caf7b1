-- ===== src/Orchestrator/Tasks/Alone.antt =====
-- A trade whose steps follow each other, with nothing else between them, is the trade in one step.
use trade_post.Base.{
  ℕ, suc, ◌≡◌, refl, ◌∙◌, ap, Bool, true, Option, none, some, [], ◌∷◌, sym, Bool-cases, inl, inr,
}
use trade_post.Decimal.{nought, at_most}
use trade_post.Execution.{Execution}
use trade_post.Execution.Submit.{Outcome, returned, raised, submit}
use trade_post.Floats.{Floats}
use trade_post.Money.{Money}
use trade_post.Orchestrator.{Proposal, submit_approved, on_verdict, trade}
use trade_post.Orchestrator.Tasks.{
  proposed, anchoring, on_approval, judge, measure, begin, resume, run_task,
}
use trade_post.Risk.{Engine, with_state}
use trade_post.Risk.Checks.{check_state, check_market}
use trade_post.Risk.States.{persist-state}
use trade_post.Risk.Validate.{
  Verdict, decided, frozen_instance, zero_division, check_drawdown, validate, anchor, anchored,
  notional,
}
use trade_post.Orchestrator.Tasks.Submission.{finish, run_step, approved_alone}

module _ {F : Type 0} ⦃fl : Floats F⦄ (up : ℕ → Bool) where
  submit_approved-submit :
      (p : Proposal F) (x : Execution F)
      → (submit_approved up p.env p.intent x).1 ≡ (submit up p.env p.intent x).1
  unfolding submit_approved
  submit_approved-submit p x = at (submit up p.env p.intent x).0 refl
    where
      at :
          (r : Outcome)
          → (submit up p.env p.intent x).0 ≡ r
          → (submit_approved up p.env p.intent x).1 ≡ (submit up p.env p.intent x).1
      at (returned o) e = rw (e, submit_approved) refl
      at (raised why) e = rw (e, submit_approved) refl

  verdict_alone :
      (n : ℕ) (p : Proposal F) (v : Verdict) (x : Execution F)
      → finish up (suc (suc (suc (suc (suc (suc (suc (suc n)))))))) (on_approval p v, x)
        ≡ (on_verdict up p.env p.intent x v).1
  unfolding on_approval on_verdict
  verdict_alone n p (decided d) x = elim (Bool-cases d.approved) [
    | inl good ↦
        rw (good, on_approval, on_verdict)
          (approved_alone up n p x ∙ sym (submit_approved-submit p x))
    | inr bad ↦ rw (bad, on_approval, on_verdict) refl
  ]
  verdict_alone n p frozen_instance x = refl
  verdict_alone n p zero_division x = refl

  -- `trade` with the decision of `validate`.
  abbrev traded : Proposal F → Verdict × Engine F → Execution F → Execution F
  traded p r x = (on_verdict up p.env p.intent (record x { risk = r.1 }) r.0).1

  measure_alone :
      (n : ℕ) (p : Proposal F) (start : Option Money) (x : Execution F)
      → finish up (suc (suc (suc (suc (suc (suc (suc (suc (suc n))))))))) (measure up p start x)
        ≡ traded p
            (check_drawdown up p.now
              (notional p.intent p.snap)
              (("state", true) ∷ ("market", true) ∷ [])
              p.intent
              p.snap
              p.portfolio
              (anchored start p.portfolio.total_equity).amount
              (anchor up start p.portfolio.total_equity x.risk))
            x
  unfolding measure judge resume anchor
  measure_alone n p (some start) x = verdict_alone (suc n) p _ _
  measure_alone n p none x =
      let equity = p.portfolio.total_equity in
      let y = record x { risk = anchor up none equity x.risk } in
      run_step up (suc (suc (suc (suc (suc (suc (suc (suc n)))))))) (anchoring p) y
      ∙ rw
          (ap (λ s. s.starting_equity)
            (persist-state up
              (with_state (record x.risk.state { starting_equity = some equity }) x.risk)))
          (verdict_alone n p _ _)

  -- A trade with nothing else between its steps leaves what the trade in one step leaves.
  pub trade_alone :
      (n : ℕ) (p : Proposal F) (x : Execution F)
      → run_task up (suc (suc (suc (suc (suc (suc (suc (suc (suc (suc n)))))))))) (proposed p) x
        ≡ (trade up p x).1
  unfolding resume begin trade validate on_verdict
  trade_alone n p x = elim (Bool-cases (check_state x.risk.state).0) [
    | inr blocked ↦ rw (run_step up _ (proposed p) x, blocked, begin, trade, validate) refl
    | inl sound ↦ elim (Bool-cases (check_market x.risk.settings p.seen p.snap).0) [
      | inr stale ↦ rw (run_step up _ (proposed p) x, sound, stale, begin, trade, validate) refl
      | inl fresh ↦ elim (Bool-cases (at_most p.portfolio.total_equity.amount nought)) [
        | inl broke ↦
            rw (run_step up _ (proposed p) x, sound, fresh, broke, begin, trade, validate) refl
        | inr solvent ↦
            rw (run_step up _ (proposed p) x, sound, fresh, solvent, begin, trade, validate)
              (measure_alone n p x.risk.state.starting_equity x)
      ]
    ]
  ]
