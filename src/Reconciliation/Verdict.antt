-- ===== src/Reconciliation/Verdict.antt =====
-- What a run of the reconciliation decides, counts and stores.
use trade_post.Base.{
  ℕ, ◌+◌, ◌≡◌, ◌↔◌, refl, subst, sym, Bool-cases, inl, inr, String, Bool, true, false, [], ◌∷◌,
  arith, if◌then◌else◌,
}
use trade_post.Decimal.{sub, absolute, ◌≼◌}
use trade_post.Decimal.Order.{at_most_iff}
use trade_post.Domain.{pass, fail, ReconciliationResult}
use trade_post.Floats.{Floats}
use trade_post.Metrics.{Metrics, inc, counter, key_eq, labels_eq}
use trade_post.Metrics.Laws.{counter-inc}
use trade_post.Persistence.Ledger.{insert_reconciliation}
use trade_post.Reconciliation.{
  Service, tolerance, ledger_balance, expected_balance, is_balanced, Ended, returned,
  database_error, counted, reconcile, mismatch_text, result_of,
}

abbrev pub runs : String
runs = "trade_post_reconciliation_runs_total"

abbrev pub errors : String
errors = "trade_post_reconciliation_mismatch_errors_total"

module _ {F : Type 0} ⦃fl : Floats F⦄ where
  -- How a run from the service `v` ends: as an error, with the tables as they were, or with a result
  -- that is the last row of the runs and whose flag, outcome and mismatches agree with the ledger
  -- equation.
  abbrev pub IsConsistent : String → Service F → Ended × Service F → Type 0
  IsConsistent account v (database_error, w) = w.db ≡ v.db
  IsConsistent account v (returned r, w) =
      (w.db ≡ insert_reconciliation account r v.db)
      × (r.ledger_balance ≡ ledger_balance account v.db)
      × (r.expected_balance ≡ expected_balance v.db)
      × ((r.passed ≡ true) ↔ (absolute (sub r.ledger_balance r.expected_balance) ≼ tolerance))
      × ((r.outcome ≡ pass) ↔ (r.passed ≡ true))
      × ((r.mismatches ≡ []) ↔ (r.passed ≡ true))

  -- A run of the reconciliation ends as an error that leaves the tables alone, or with a stored
  -- result: it passes exactly if ledger and fills differ by at most the tolerance, and only then its
  -- outcome is a pass and its list of mismatches empty.
  pub reconcile_verdict :
      (stored : Bool) (id : String) (started ended : ℕ) (account : String) (v : Service F)
      → IsConsistent account v (reconcile stored id started ended account v)
  unfolding reconcile is_balanced
  reconcile_verdict false id started ended account v = refl
  reconcile_verdict true id started ended account v =
      let ledger = ledger_balance account v.db in
      let expected = expected_balance v.db in
      (
        refl,
        refl,
        refl,
        at_most_iff (absolute (sub ledger expected)) tolerance,
        ground arith,
        ground arith,
      )

  counted_passed :
      (r : ReconciliationResult) (m : Metrics F)
      → r.passed ≡ true
      → r.outcome ≡ pass
      → counted r m ≡ inc runs 1 (("result", "pass") ∷ []) m
  unfolding counted
  counted_passed r m p o = rw (p, o, counted) refl

  counted_failed :
      (r : ReconciliationResult) (m : Metrics F)
      → r.passed ≡ false
      → r.outcome ≡ fail
      → counted r m ≡ inc errors 1 [] (inc runs 1 (("result", "fail") ∷ []) m)
  unfolding counted
  counted_failed r m p o = rw (p, o, counted) refl

  abbrev pub Counts : Bool → Metrics F → Metrics F → Type 0
  Counts ok m m' =
      (counter runs (("result", "pass") ∷ []) m'
        ≡ counter runs (("result", "pass") ∷ []) m + (if ok then 1 else 0))
      × (counter runs (("result", "fail") ∷ []) m'
          ≡ counter runs (("result", "fail") ∷ []) m + (if ok then 0 else 1))
      × (counter errors [] m' ≡ counter errors [] m + (if ok then 0 else 1))

  passed-Counts : (m : Metrics F) → Counts true m (inc runs 1 (("result", "pass") ∷ []) m)
  unfolding key_eq labels_eq
  passed-Counts m = ground (
    arith,
    counter-inc runs runs (("result", "pass") ∷ []) (("result", "pass") ∷ []) 1 m,
    counter-inc runs runs (("result", "pass") ∷ []) (("result", "fail") ∷ []) 1 m,
    counter-inc runs errors (("result", "pass") ∷ []) [] 1 m,
  )

  failed-Counts :
      (m : Metrics F) → Counts false m (inc errors 1 [] (inc runs 1 (("result", "fail") ∷ []) m))
  unfolding key_eq labels_eq
  failed-Counts m =
      let m' = inc runs 1 (("result", "fail") ∷ []) m in
      ground (
        arith,
        counter-inc runs runs (("result", "fail") ∷ []) (("result", "pass") ∷ []) 1 m,
        counter-inc runs runs (("result", "fail") ∷ []) (("result", "fail") ∷ []) 1 m,
        counter-inc runs errors (("result", "fail") ∷ []) [] 1 m,
        counter-inc errors runs [] (("result", "pass") ∷ []) 1 m',
        counter-inc errors runs [] (("result", "fail") ∷ []) 1 m',
        counter-inc errors errors [] [] 1 m',
      )

  -- Whether or not its result is stored, a run adds one to the counter of its outcome and none to
  -- the counter of the other, and one to the counter of mismatches exactly if it does not pass.
  reconcile-Counts :
      (stored : Bool) (id : String) (started ended : ℕ) (account : String) (v : Service F)
      → Counts
          (is_balanced (ledger_balance account v.db) (expected_balance v.db))
          v.metrics
          (reconcile stored id started ended account v).1.metrics
  unfolding reconcile
  reconcile-Counts stored id started ended account v = elim (Bool-cases ok) [
    | inl good ↦ same stored (
        subst (λ b. Counts b v.metrics (counted r v.metrics)) (sym good)
          (subst (Counts true v.metrics) (sym (counted_passed r v.metrics good (rw good)))
            (passed-Counts v.metrics)))
    | inr bad ↦ same stored (
        subst (λ b. Counts b v.metrics (counted r v.metrics)) (sym bad)
          (subst (Counts false v.metrics) (sym (counted_failed r v.metrics bad (rw bad)))
            (failed-Counts v.metrics)))
  ]
    where
      ok : Bool
      ok = is_balanced (ledger_balance account v.db) (expected_balance v.db)

      r : ReconciliationResult
      r =
          result_of id started ended (ledger_balance account v.db) (expected_balance v.db)
            (mismatch_text fl (ledger_balance account v.db) (expected_balance v.db)) ok

      same :
          (b : Bool)
          → Counts ok v.metrics (counted r v.metrics)
          → Counts ok v.metrics (reconcile b id started ended account v).1.metrics
      same true h = h
      same false h = h
