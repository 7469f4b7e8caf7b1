-- ===== src/Risk/Tests.antt =====
-- The risk engine on the settings' defaults, and its theorems at concrete inputs.
use trade_post.Base.{
  ◌≡◌, ◌↔◌, refl, true, none, some, List, [], ◌∷◌, arith, ◌≤◌, ◌+◌, count_if, inl,
}
use trade_post.Decimal.{Decimal, of_ℕ}
use trade_post.Domain.{RiskState}
use trade_post.Floats.Sample.{decimal_floats, arithmetic}
use trade_post.Money.{usdt}
use trade_post.Risk.{Engine, kill, persist}
use trade_post.Risk.Checks.{check_market, check_state, is_wide}
use trade_post.Risk.Validate.{
  frozen_instance, validate, check_drawdown, check_size, check_sizing, check_open_orders,
  check_limit, anchor,
}
use trade_post.Risk.Admission.{is_approved, IsAdmissible, validate-IsAdmissible}
use trade_post.Risk.KillSwitch.{Call, kills, fails, validates, run, refused_by, run_anchor}
use trade_post.Risk.Circuit.{IsTripped, run-IsTripped, fail_at, fail_at_opens}
use trade_post.Samples.{fresh_state, engine, quote, intent, portfolio, always}

program : Unit {0}
unfolding arithmetic count_if validate check_state check_market is_wide check_drawdown check_size
    check_sizing check_open_orders check_limit anchor persist kill
program = tt

abbrev live : RiskState
live = record fresh_state { starting_equity = some (usdt (of_ℕ 10_000)) }

abbrev anchored : Engine Decimal
anchored = record engine { state = live }

abbrev dead : Engine Decimal
dead = record engine { state = record live { killed = true } }

abbrev open_circuit : Engine Decimal
open_circuit = record engine {
  state = record live { circuit_open = true; failures_in_window = 3; last_failure_at = some 5 };
}

abbrev calls : List (Call Decimal)
calls =
    fails 7 ∷ validates 1 2 (intent (of_ℕ 1)) (quote none) (portfolio 10_000) ∷ kills 9 "again" ∷ []

approves :
    is_approved (validate always 0 0 (intent (of_ℕ 1)) (quote none) (portfolio 10_000) engine).0
    ≡ true
unfolding program
approves = refl

-- 3 units at 100 are above 2% of 10000.
too_large :
    refused_by (validate always 0 0 (intent (of_ℕ 3)) (quote none) (portfolio 10_000) engine).0
    ≡ "SIZE_BLOCKED"
unfolding program
too_large = refl

raises :
    (validate always 0 0 (intent (of_ℕ 2)) (quote (some (of_ℕ 50))) (portfolio 10_000) anchored).0
    ≡ frozen_instance
unfolding program
raises = refl

validate-IsAdmissible_example :
    (is_approved (validate always 0 0 (intent (of_ℕ 1)) (quote none) (portfolio 10_000) engine).0
      ≡ true)
    ↔ IsAdmissible engine 0 (intent (of_ℕ 1)) (quote none) (portfolio 10_000)
validate-IsAdmissible_example =
    validate-IsAdmissible always 0 0 (intent (of_ℕ 1)) (quote none) (portfolio 10_000) engine

run_anchor_example : (run always calls anchored).1.state.starting_equity ≡ some (usdt (of_ℕ 10_000))
run_anchor_example = run_anchor always calls anchored (usdt (of_ℕ 10_000)) refl

run-IsTripped_example : IsTripped always (run always calls anchored).1
run-IsTripped_example = run-IsTripped always calls anchored (omega arith) (inl (omega arith))

fail_at_opens_example :
    ((fail_at always (1 ∷ 2 ∷ 3 ∷ []) anchored).state.circuit_open ≡ true) ↔ (3 ≤ 0 + 3)
fail_at_opens_example = fail_at_opens always (1 ∷ 2 ∷ 3 ∷ []) anchored refl (omega arith)
