-- ===== src/Risk.antt =====
-- trade_post/risk/engine.py: the risk engine's state, its writes to the database, and the kill
-- switch and circuit breaker. `now` is the clock's reading, `up` says which transactions succeed.
pub mod Checks
pub mod Validate
pub mod Admission
pub mod States
pub mod Tables
pub mod KillSwitch
pub mod Circuit
pub mod Sizing
pub mod Restart
mod Tests
use trade_post.Base.{
  ℕ, suc, ◌+◌, ◌*◌, String, Bool, true, false, not, ◌&&◌, Option, none, some, [], leb,
  if◌then◌else◌,
}
use trade_post.Config.{Settings}
use trade_post.Domain.{RiskState}
use trade_post.Metrics.{Metrics, inc}
use trade_post.Persistence.{Database}
use trade_post.Persistence.RiskRow.{upsert_risk_state, get_risk_state, in_session}

-- The engine, and what its methods share with the rest of the process.
pub record Engine (F : Type 0) : Type 0 where
  pub settings : Settings F
  pub state : RiskState
  pub bound : Bool  -- whether `bind_database` has been called
  pub db : Database
  pub metrics : Metrics F

abbrev pub second : ℕ
second = 1_000_000

-- `(now - t).total_seconds() >= n`, in microseconds.
abbrev pub has_elapsed : ℕ → ℕ → ℕ → Bool
has_elapsed now t n = leb (t + n * second) now

module _ {F : Type 0} where
  abbrev pub with_state : RiskState → Engine F → Engine F
  with_state s e = record e { state = s }

  unfoldable pub bind_database : Engine F → Engine F
  bind_database e = record e { bound = true }

  unfoldable pub load : Engine F → Engine F
  unfolding get_risk_state
  load e = if e.bound then elim (get_risk_state e.db) [ none ↦ e | some s ↦ with_state s e ] else e

  -- Whether the cool-off since the last failure is over.
  unfoldable pub is_cooled_off : Settings F → ℕ → Option ℕ → Bool
  is_cooled_off s now none = false
  is_cooled_off s now (some t) = has_elapsed now t s.recovery_cooloff_sec

  module _ (up : ℕ → Bool) where
    -- A failed write is logged and swallowed.
    unfoldable pub persist : Engine F → Engine F
    unfolding in_session upsert_risk_state
    persist e =
        if e.bound then record e { db = in_session up (upsert_risk_state e.state) e.db } else e

    unfoldable pub kill : ℕ → String → Engine F → Engine F
    kill now reason e = persist (record e {
      state = record e.state { killed = true; kill_reason = some reason; killed_at = some now };
      metrics = inc "trade_post_kill_switch_trips_total" 1 [] e.metrics;
    })

    unfoldable pub record_failure : ℕ → Engine F → Engine F
    record_failure now e =
        let n = suc e.state.failures_in_window in
        let counted = record e.state { failures_in_window = n; last_failure_at = some now } in
        persist (
          with_state
            (if leb e.settings.circuit_breaker_failure_threshold n
              then record counted { circuit_open = true }
              else counted)
            e)

    unfoldable pub record_success : ℕ → Engine F → Engine F
    unfolding is_cooled_off
    record_success now e =
        let cleared = record e.state { failures_in_window = 0 } in
        persist (
          with_state
            (if cleared.circuit_open && is_cooled_off e.settings now cleared.last_failure_at
              then record cleared { circuit_open = false }
              else cleared)
            e)
