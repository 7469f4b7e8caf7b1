-- ===== src/Risk/Circuit.antt =====
-- The circuit breaker of the risk engine: when it opens, what closes it, and what it blocks.
use trade_post.Base.{
  ℕ, ◌+◌, ◌*◌, ◌≤◌, ◌<◌, ◌≡◌, ◌↔◌, ◌⊎◌, Bool, true, false, some, List, [], ◌∷◌, arith, leb, All,
  All-append, length, subst, sym,
}
use trade_post.Floats.{Floats}
use trade_post.Risk.{Engine, second, record_failure, record_success, is_cooled_off}
use trade_post.Risk.Checks.{check_state}
use trade_post.Risk.Validate.{validate}
use trade_post.Risk.KillSwitch.{Call, kills, fails, succeeds, validates, step, run, refused_by}
use trade_post.Risk.States.{
  validate-Follows, kill-state, kill-settings, record_failure-state, record_success-state,
  record_failure-settings, record_success-settings,
}

module _ {F : Type 0} ⦃fl : Floats F⦄ (up : ℕ → Bool) where
  -- The count of failures is below the threshold, or the breaker is open.
  abbrev pub IsTripped : Engine F → Type 0
  IsTripped e =
      (e.state.failures_in_window < e.settings.circuit_breaker_failure_threshold)
      ⊎ (e.state.circuit_open ≡ true)

  step-IsTripped :
      (c : Call F) (e : Engine F)
      → 0 < e.settings.circuit_breaker_failure_threshold
      → IsTripped e
      → IsTripped (step up c e).1 × ((step up c e).1.settings ≡ e.settings)
  unfolding step
  step-IsTripped (kills now why) e p h =
      ground (arith, kill-state up now why e, kill-settings up now why e)
  step-IsTripped (fails now) e p h =
      ground (arith, record_failure-state up now e, record_failure-settings up now e)
  step-IsTripped (succeeds now) e p h =
      ground (arith, record_success-state up now e, record_success-settings up now e)
  step-IsTripped (validates seen now i snap pf) e p h =
      ground (arith, validate-Follows up seen now i snap pf e)

  -- With a threshold above 0, as the settings demand, every sequence of calls keeps the breaker
  -- open while the count of failures is at or above the threshold.
  pub run-IsTripped :
      (cs : List (Call F)) (e : Engine F)
      → 0 < e.settings.circuit_breaker_failure_threshold
      → IsTripped e
      → IsTripped (run up cs e).1
  unfolding run
  run-IsTripped [] e p h = h
  run-IsTripped (c ∷ cs) e p h =
      let (k, same) = step-IsTripped c e p h in
      run-IsTripped cs (step up c e).1
        (subst (λ s. 0 < s.circuit_breaker_failure_threshold) (sym same) p) k

  -- One call of `record_failure` at each of the times.
  unfoldable pub fail_at : List ℕ → Engine F → Engine F
  fail_at [] e = e
  fail_at (t ∷ ts) e = fail_at ts (record_failure up t e)

  fail_at_counts :
      (ts : List ℕ) (e : Engine F)
      → ((fail_at ts e).state.failures_in_window ≡ e.state.failures_in_window + length ts)
        × ((fail_at ts e).settings ≡ e.settings)
        × (e.state.circuit_open ≡ true → (fail_at ts e).state.circuit_open ≡ true)
        × (e.state.circuit_open ≡ false
            → e.state.failures_in_window < e.settings.circuit_breaker_failure_threshold
            → (fail_at ts e).state.circuit_open
              ≡ leb e.settings.circuit_breaker_failure_threshold
                  (e.state.failures_in_window + length ts))
  unfolding fail_at
  fail_at_counts [] e = ground arith
  fail_at_counts (t ∷ ts) e = ground (
    arith,
    fail_at_counts ts (record_failure up t e),
    record_failure-state up t e,
    record_failure-settings up t e,
  )

  -- From a closed breaker with fewer failures than the threshold, a row of failures opens it
  -- exactly when the count reaches the threshold.
  pub fail_at_opens :
      (ts : List ℕ) (e : Engine F)
      → e.state.circuit_open ≡ false
      → e.state.failures_in_window < e.settings.circuit_breaker_failure_threshold
      → ((fail_at ts e).state.circuit_open ≡ true)
        ↔ (e.settings.circuit_breaker_failure_threshold ≤ e.state.failures_in_window + length ts)
  fail_at_opens ts e closed below = ground (arith, fail_at_counts ts e)

  -- A success clears the count, and closes an open breaker exactly if a failure is on record and
  -- the cool-off since the last one is over.
  pub record_success_rearms :
      (now last : ℕ) (e : Engine F)
      → e.state.last_failure_at ≡ some last
      → ((record_success up now e).state.failures_in_window ≡ 0)
        × (((record_success up now e).state.circuit_open ≡ false) ↔ (
            (e.state.circuit_open ≡ false)
            ⊎ (last + e.settings.recovery_cooloff_sec * second ≤ now)))
  unfolding is_cooled_off
  record_success_rearms now last e h = ground (arith, record_success-state up now e)

  abbrev is_success : Call F → Bool
  is_success (succeeds _) = true
  is_success _ = false

  -- Blocked: no verdict of the row was an approval, and the breaker is still open.
  step_open :
      (c : Call F) (e : Engine F)
      → is_success c ≡ false
      → e.state.circuit_open ≡ true
      → ((step up c e).1.state.circuit_open ≡ true)
        × All (λ v. refused_by v ≡ "STATE_BLOCKED") (step up c e).0
  unfolding step validate check_state
  step_open (kills now why) e s h = ground (arith, kill-state up now why e)
  step_open (fails now) e s h = ground (arith, record_failure-state up now e)
  step_open (succeeds now) e s h = cc
  step_open (validates seen now i snap pf) e s h =
      ground (arith, validate-Follows up seen now i snap pf e)

  -- While the breaker is open, only a recorded success can close it: in any sequence of other
  -- calls it stays open and every validation is refused as STATE_BLOCKED.
  run_open :
      (cs : List (Call F)) (e : Engine F)
      → All (λ c. is_success c ≡ false) cs
      → e.state.circuit_open ≡ true
      → ((run up cs e).1.state.circuit_open ≡ true)
        × All (λ v. refused_by v ≡ "STATE_BLOCKED") (run up cs e).0
  unfolding run
  run_open [] e s h = (h, tt)
  run_open (c ∷ cs) e s h =
      let (k, refused) = step_open c e s.0 h in
      let (k', refused') = run_open cs (step up c e).1 s.1 k in
      (k', All-append _ _ _ refused refused')
