-- ===== src/Ai/Baseline.antt =====
-- trade_post/ai/brain.py: `_baseline_from_signal`, the decision without a language model.
use trade_post.Base.{String, Bool, true, false, not, ◌&&◌, [], ◌∷◌, if◌then◌else◌}
use trade_post.Base.Int.{pos}
use trade_post.Ai.Schema.{Json, null, double, text}
use trade_post.Decimal.{Decimal, less}
use trade_post.Dict.{Dict}
use trade_post.Domain.{SignalSide, long, flat}
use trade_post.Floats.{Floats}
use trade_post.Strategy.{StrategySignal}

-- The text of 0.15.
abbrev min_strength : Decimal
min_strength = record { coef = pos 15; scale = 2 }

abbrev pub is_directed : SignalSide → Bool
is_directed flat = false
is_directed _ = true

abbrev pub action_of : SignalSide → String
action_of long = "BUY"
action_of _ = "SELL"

module _ {F : Type 0} ⦃fl : Floats F⦄ where
  abbrev pub payload : String → String → Json F → Json F → F → String → Dict (Json F)
  payload action symbol price quantity confidence rationale =
      ("action", text action)
      ∷ ("symbol", text symbol)
      ∷ ("price", price)
      ∷ ("quantity", quantity)
      ∷ ("confidence", double confidence)
      ∷ ("stop_loss", null)
      ∷ ("take_profit", null)
      ∷ ("rationale", text rationale)
      ∷ []

  unfoldable pub has_edge : StrategySignal F → Bool
  has_edge sig = is_directed sig.signal && not (less sig.strength min_strength)

  -- 0.5% of the equity, at the last price.
  abbrev pub baseline_quantity : Decimal → Decimal → F
  baseline_quantity last_price equity =
      let last = fl.of_decimal last_price in
      if fl.flt (fl.of_ℕ 0) last
      then fl.fdiv (fl.fmul (fl.of_decimal equity) (fl.ratio 5 1000)) last
      else fl.of_ℕ 0

  abbrev pub baseline_by : Bool → StrategySignal F → Decimal → Decimal → Dict (Json F)
  baseline_by false sig last_price equity =
      payload "HOLD" sig.symbol null null (fl.of_ℕ 0) "No edge detected"
  baseline_by true sig last_price equity =
      payload (action_of sig.signal) sig.symbol (double (fl.round_to (fl.of_decimal last_price) 8))
        (double (fl.round_to (baseline_quantity last_price equity) 8)) (fl.of_decimal sig.strength)
        sig.rationale

  -- `_baseline_from_signal`
  unfoldable pub baseline_from_signal : StrategySignal F → Decimal → Decimal → Dict (Json F)
  unfolding has_edge
  baseline_from_signal sig last_price equity = baseline_by (has_edge sig) sig last_price equity
