-- ===== src/Risk/Checks.antt =====
-- trade_post/risk/engine.py: the checks of the state and of the market, and the reject helper.
use Prim.Native.String.{◌++◌}
use trade_post.Base.{
  ℕ, ◌+◌, ◌*◌, String, Bool, true, false, Option, none, some, List, ltb, if◌then◌else◌,
}
use trade_post.Base.Int.{sub_ℕ}
use trade_post.Config.{Settings}
use trade_post.Decimal.{Decimal, less}
use trade_post.Domain.{MarketSnapshot, RiskDecision, RiskState}
use trade_post.Floats.{Floats}
use trade_post.Money.{Money}
use trade_post.Risk.{second}

-- `f"{text}"` of an optional text.
abbrev pub show_optional : Option String → String
show_optional none = "None"
show_optional (some s) = s

unfoldable pub check_state : RiskState → Bool × String
check_state s =
    if s.killed
    then (false, "Kill switch active: " ++ show_optional s.kill_reason)
    else if s.circuit_open
    then (false, "Circuit breaker open")
    else (true, "state-ok")

abbrev pub reject : Money → String → String → List (String × Bool) → RiskDecision
reject requested why rule checks = record {
  approved = false;
  reason = why;
  code = rule;
  requested_size_usd = requested;
  capped_size_usd = none;
  checks = checks;
}

module _ {F : Type 0} ⦃fl : Floats F⦄ where
  -- Whether the spread is known and above the limit.
  unfoldable pub is_wide : Settings F → Option Decimal → Bool
  is_wide s none = false
  is_wide s (some bps) = less (fl.to_decimal (fl.fmul s.max_spread_pct (fl.of_ℕ 100))) bps

  abbrev show_spread : Settings F → Option Decimal → String
  show_spread s none = "None"
  show_spread s (some d) = fl.show_decimal d

  -- `age > max_stale_data_sec` is compared in microseconds.
  unfoldable pub check_market : Settings F → ℕ → MarketSnapshot F → Bool × String
  unfolding is_wide
  check_market s now snap =
      if ltb (snap.timestamp + s.max_stale_data_sec * second) now
      then (
        false,
        "Stale market data: "
            ++ fl.fixed 1 (fl.total_seconds (sub_ℕ now snap.timestamp))
            ++ "s old",
      )
      else if is_wide s snap.spread_bps
      then (false, "Spread too wide: " ++ show_spread s snap.spread_bps ++ "bps")
      else (true, "market-ok")
