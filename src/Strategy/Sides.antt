-- ===== src/Strategy/Sides.antt =====
-- The side of a signal, and what becomes of a relative strength of 0.
use trade_post.Base.{◌≡◌, ◌↔◌, ◌⊎◌, inl, inr, Bool-cases, refl, true, false, some, arith}
use trade_post.Decimal.{nought}
use trade_post.Domain.{SignalSide, long, short, flat, MarketSnapshot}
use trade_post.Floats.{Floats}
use trade_post.Strategy.{
  Features, StrategySignal, is_strength, features_of, signal_of, score_of, threshold_of, side_of,
  strength_of, from_snapshot,
}

module _ {F : Type 0} ⦃fl : Floats F⦄ where
  abbrev pub score : Features F → F
  score f = score_of f.trend f.mean_rev f.momentum f.volatility

  side_of_iff :
      (x t : F)
      → ((side_of x t ≡ long) ↔ (fl.flt t x ≡ true))
        × ((side_of x t ≡ flat) ↔ ((fl.flt t x ≡ false) × (fl.flt x (fl.fneg t) ≡ false)))
  unfolding side_of
  side_of_iff x t = ground arith

  strength_of-flat :
      (side : SignalSide) (x t : F)
      → (side ≡ long) ⊎ (side ≡ short) ⊎ (strength_of side x t ≡ nought)
  unfolding strength_of
  strength_of-flat long x t = inl refl
  strength_of-flat short x t = inr (inl refl)
  strength_of-flat flat x t = inr (inr refl)

  made :
      (snap : MarketSnapshot F) (s : StrategySignal F)
      → from_snapshot snap ≡ some s
      → (s ≡ signal_of snap.symbol (features_of snap.indicators))
        × (is_strength (signal_of snap.symbol (features_of snap.indicators)).strength ≡ true)
  unfolding from_snapshot
  made snap s e =
      elim (Bool-cases
        (is_strength (signal_of snap.symbol (features_of snap.indicators)).strength)) [
          | inl good ↦ (ground arith, good)
          | inr bad ↦ absurd (ground arith)
        ]

  -- A signal that is made is long exactly if its score is above the threshold, and flat exactly if
  -- the score is neither above the threshold nor below its negative; its strength is within 0 and 1,
  -- and a flat one has the strength 0.
  from_snapshot-sides :
      (snap : MarketSnapshot F) (s : StrategySignal F)
      → from_snapshot snap ≡ some s
      → let above = fl.flt (threshold_of s.features.volatility) (score s.features) in
        let below = fl.flt (score s.features) (fl.fneg (threshold_of s.features.volatility)) in
        ((s.signal ≡ long) ↔ (above ≡ true))
        × ((s.signal ≡ flat) ↔ ((above ≡ false) × (below ≡ false)))
        × (is_strength s.strength ≡ true)
        × ((s.signal ≡ long) ⊎ (s.signal ≡ short) ⊎ (s.strength ≡ nought))
  unfolding signal_of
  from_snapshot-sides snap s e =
      let (same, good) = made snap s e in
      let f = features_of snap.indicators in
      let sides = side_of_iff (score f) (threshold_of f.volatility) in
      rw same (sides.0, sides.1, good, strength_of-flat _ (score f) (threshold_of f.volatility))

  abbrev pub with_rsi : F → MarketSnapshot F → MarketSnapshot F
  with_rsi r snap = record snap { indicators = record snap.indicators { rsi = some r } }

  -- A relative strength that equals zero, which is as oversold as can be, gives the signal of a
  -- relative strength of 50, which is neutral. The floats must tell 50 from zero.
  pub zero_rsi_neutral :
      (snap : MarketSnapshot F) (zero : F)
      → fl.feq zero (fl.of_ℕ 0) ≡ true
      → fl.feq (fl.of_ℕ 50) (fl.of_ℕ 0) ≡ false
      → from_snapshot (with_rsi zero snap) ≡ from_snapshot (with_rsi (fl.of_ℕ 50) snap)
  unfolding from_snapshot features_of
  zero_rsi_neutral snap zero z n = rw (z, n, features_of) refl
