-- ===== src/Execution/Orphans.antt =====
-- trade_post/execution/engine.py: `ExecutionEngine.reconcile_orphans`.
use trade_post.Base.{
  ℕ, ◌≡◌, ◌⊎◌, inl, inr, Option-cases, Bool-cases, refl, String, Bool, true, false, not, ◌&&◌,
  Option, none, some, List, [], ◌∷◌, arith, str_eq, if◌then◌else◌, any_of, All,
}
use trade_post.Execution.{Execution, is_simulated}
use trade_post.Floats.{Floats, is_true_float}
use trade_post.Persistence.{Database}
use trade_post.Persistence.Orders.{list_recent_orders}

-- An open order as the exchange lists it; the time is in milliseconds.
pub record OpenOrder (F : Type 0) : Type 0 where
  pub id : String
  pub timestamp : Option F

abbrev pub has_exchange_id : String → Option String → Bool
has_exchange_id ex_id none = false
has_exchange_id ex_id (some id) = str_eq id ex_id

-- Whether one of the 500 newest orders is the exchange's order.
unfoldable pub is_ours : String → Database → Bool
is_ours ex_id db =
    any_of (λ o. has_exchange_id ex_id o.exchange_order_id) (list_recent_orders 500 db)

module _ {F : Type 0} ⦃fl : Floats F⦄ where
  -- The age in seconds, of an order that has a time. `now` is `time.time() * 1000`.
  unfoldable pub age_of : F → Option F → Option F
  age_of now none = none
  age_of now (some ts) =
      if is_true_float ts then some (fl.fdiv (fl.fsub now ts) (fl.of_ℕ 1000)) else none

  unfoldable pub is_old : ℕ → Option F → Bool
  is_old threshold none = false
  is_old threshold (some age) = fl.flt (fl.of_ℕ threshold) age

  -- What is cancelled at the exchange. `cancels` says which cancellations it accepts; a refused one
  -- is logged and left out of the actions.
  module _ (cancels : String → Bool) (now : F) where
    unfoldable pub is_orphan : ℕ → Database → OpenOrder F → Bool
    is_orphan threshold db o = not (is_ours o.id db) && is_old threshold (age_of now o.timestamp)

    unfoldable pub cancelled_orphans : ℕ → Database → List (OpenOrder F) → List (OpenOrder F)
    cancelled_orphans threshold db [] = []
    cancelled_orphans threshold db (o ∷ os) =
        let rest = cancelled_orphans threshold db os in
        if is_orphan threshold db o && cancels o.id then o ∷ rest else rest

    -- `fetched` is the exchange's list, or `none` if there is no exchange or it fails.
    unfoldable pub reconcile_orphans :
        Option (List (OpenOrder F)) → Execution F → List (OpenOrder F)
    reconcile_orphans none x = []
    reconcile_orphans (some os) x =
        if is_simulated x.risk.settings
        then []
        else cancelled_orphans x.risk.settings.orphan_age_threshold_sec x.risk.db os

    -- None of the 500 newest orders, with a time, and older than the threshold.
    abbrev pub IsOrphan : ℕ → Database → OpenOrder F → Type 0
    IsOrphan threshold db o =
        (is_ours o.id db ≡ false)
        × ((age : F) × (age_of now o.timestamp ≡ some age)
            × (fl.flt (fl.of_ℕ threshold) age ≡ true))

    is_orphan-IsOrphan :
        (threshold : ℕ) (db : Database) (o : OpenOrder F)
        → is_orphan threshold db o ≡ true
        → IsOrphan threshold db o
    unfolding is_orphan is_old
    is_orphan-IsOrphan threshold db o h = elim (Option-cases (age_of now o.timestamp)) [
      | inl timeless ↦ absurd (ground arith)
      | inr (age, e) ↦ (ground arith, (age, e, ground arith))
    ]

    cancelled_orphans-All :
        (threshold : ℕ) (db : Database) (os : List (OpenOrder F))
        → All (IsOrphan threshold db) (cancelled_orphans threshold db os)
    unfolding cancelled_orphans
    cancelled_orphans-All threshold db [] = tt
    cancelled_orphans-All threshold db (o ∷ os) =
        elim (Bool-cases (is_orphan threshold db o && cancels o.id)) [
          | inl gone ↦
              rw (gone, cancelled_orphans)
                (
                  is_orphan-IsOrphan threshold db o (ground arith),
                  cancelled_orphans-All threshold db os,
                )
          | inr kept ↦ rw (kept, cancelled_orphans) (cancelled_orphans-All threshold db os)
        ]

    -- Every order that is cancelled as an orphan is none of the 500 newest orders, has a time, and is
    -- older than the threshold; and none is cancelled in the paper account.
    pub reconcile_orphans-All :
        (fetched : Option (List (OpenOrder F))) (x : Execution F)
        → All
            (IsOrphan x.risk.settings.orphan_age_threshold_sec x.risk.db)
            (reconcile_orphans fetched x)
          × ((is_simulated x.risk.settings ≡ false) ⊎ (reconcile_orphans fetched x ≡ []))
    unfolding reconcile_orphans
    reconcile_orphans-All none x = (tt, inr refl)
    reconcile_orphans-All (some os) x = elim (Bool-cases (is_simulated x.risk.settings)) [
      | inl paper ↦ rw (paper, reconcile_orphans) (tt, inr refl)
      | inr live ↦ rw (live, reconcile_orphans) (cancelled_orphans-All _ x.risk.db os, inl refl)
    ]
