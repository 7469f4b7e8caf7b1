-- ===== src/Reconciliation.antt =====
-- trade_post/reconciliation/service.py: the comparison of the ledger with the fills.
mod Tests
pub mod Verdict
use Prim.Native.String.{◌++◌}
use trade_post.Base.{
  ℕ, String, Bool, true, false, not, Option, none, some, List, [], ◌∷◌, str_eq, if◌then◌else◌,
}
use trade_post.Base.Int.{pos}
use trade_post.Decimal.{Decimal, nought, add, sub, mul, absolute, at_most}
use trade_post.Domain.{
  OrderSide, buy, sell, Fill, ReconciliationOutcome, pass, fail, ReconciliationResult,
}
use trade_post.Floats.{Floats}
use trade_post.Metrics.{Metrics, inc}
use trade_post.Persistence.{Database, LedgerRow}
use trade_post.Persistence.Ledger.{ledger_rows, fill_rows, insert_reconciliation}

pub record Service (F : Type 0) : Type 0 where
  pub db : Database
  pub metrics : Metrics F

-- `_DEFAULT_TOLERANCE`, 0.01
abbrev pub tolerance : Decimal
tolerance = record { coef = pos 1; scale = 2 }

-- `sum((Decimal(r.delta) for r in ledger_rows), Decimal("0"))`
unfoldable pub sum_deltas : Decimal → List LedgerRow → Decimal
sum_deltas acc [] = acc
sum_deltas acc (r ∷ rs) = sum_deltas (add acc r.delta) rs

unfoldable pub ledger_balance : String → Database → Decimal
ledger_balance account db = sum_deltas nought (ledger_rows account db)

unfoldable pub after_trade : OrderSide → Decimal → Decimal → Decimal
after_trade buy cash notional = sub cash notional
after_trade sell cash notional = add cash notional

-- The loop over the fills, from the cash and the fees so far.
unfoldable pub trade_totals : Decimal → Decimal → List Fill → Decimal × Decimal
unfolding after_trade
trade_totals cash fees [] = (cash, fees)
trade_totals cash fees (f ∷ fs) =
    trade_totals (after_trade f.side cash (mul f.quantity f.price))
      (if str_eq f.fee.currency "USDT" then add fees f.fee.amount else fees) fs

unfoldable pub expected_balance : Database → Decimal
expected_balance db = let (cash, fees) = trade_totals nought nought (fill_rows db) in sub cash fees

unfoldable pub is_balanced : Decimal → Decimal → Bool
is_balanced ledger expected = at_most (absolute (sub ledger expected)) tolerance

abbrev pub outcome_text : ReconciliationOutcome → String
outcome_text pass = "pass"
outcome_text fail = "fail"

-- The run's end: a stored result, or a `DatabaseError` of the insertion.
pub data Ended : Type 0 where
  returned : ReconciliationResult → Ended
  database_error : Ended

unfoldable pub mismatch_text : {F : Type 0} → Floats F → Decimal → Decimal → String
mismatch_text fl ledger expected =
    "ledger="
    ++ fl.show_decimal ledger
    ++ " expected="
    ++ fl.show_decimal expected
    ++ " diff="
    ++ fl.show_decimal (sub ledger expected)

abbrev pub result_of : String → ℕ → ℕ → Decimal → Decimal → String → Bool → ReconciliationResult
result_of id started ended ledger expected why passed = record {
  id = id;
  run_started_at = started;
  run_ended_at = some ended;
  outcome = if passed then pass else fail;
  ledger_balance = ledger;
  expected_balance = expected;
  tolerance = tolerance;
  mismatches = if passed then [] else why ∷ [];
  passed = passed;
}

module _ {F : Type 0} ⦃fl : Floats F⦄ where
  unfoldable pub counted : ReconciliationResult → Metrics F → Metrics F
  counted r m =
      let m' =
        inc "trade_post_reconciliation_runs_total" 1 (("result", outcome_text r.outcome) ∷ []) m in
      if r.passed then m' else inc "trade_post_reconciliation_mismatch_errors_total" 1 [] m'

  -- `stored` says whether the insertion of the result commits; the reads before it succeed.
  unfoldable pub reconcile : Bool → String → ℕ → ℕ → String → Service F → Ended × Service F
  reconcile stored id started ended account v =
      let ledger = ledger_balance account v.db in
      let expected = expected_balance v.db in
      let r =
        result_of id started ended ledger expected (mismatch_text fl ledger expected)
          (is_balanced ledger expected) in
      let m = counted r v.metrics in
      if stored
      then (returned r, record v { db = insert_reconciliation account r v.db; metrics = m })
      else (database_error, record v { metrics = m })
