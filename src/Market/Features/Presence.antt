-- ===== src/Market/Features/Presence.antt =====
-- Which indicators there are, by the number of closes.
use trade_post.Base.{
  ℕ, suc, ◌-◌, ◌≤◌, ◌<◌, ◌≡◌, ◌↔◌, refl, ap, Option-cases, inl, inr, true, Option, some, List, [],
  ◌∷◌, arith, length, is_some,
}
use trade_post.Domain.{Indicators}
use trade_post.Floats.{Floats}
use trade_post.Market.Features.{volatility_of, compute_all, returns_from}
use trade_post.Market.Indicators.{
  sma, ema, changes_from, changes, rsi, macd_line_from, macd_of, macd, bollinger,
  realized_volatility,
}

module _ {F : Type 0} ⦃fl : Floats F⦄ where
  length-changes_from : (x : F) (xs : List F) → length (changes_from x xs) ≡ length xs
  unfolding changes_from
  length-changes_from x [] = refl
  length-changes_from x (y ∷ ys) = ap suc (length-changes_from y ys)

  length-changes : (xs : List F) → length (changes xs) ≡ length xs - 1
  unfolding changes
  length-changes [] = refl
  length-changes (x ∷ xs) = omega (arith, length-changes_from x xs)

  is_some-rsi : (xs : List F) (p : ℕ) → (is_some (rsi xs p) ≡ true) ↔ ((0 < p) × (p < length xs))
  unfolding rsi
  is_some-rsi xs p = ground (arith, length-changes xs)

  is_some-macd : (xs : List F) → (is_some (macd xs) ≡ true) ↔ (35 ≤ length xs)
  unfolding macd macd_of macd_line_from
  is_some-macd [] = ground arith
  is_some-macd (x ∷ []) = ground arith
  is_some-macd (x ∷ y ∷ xs) = ground arith

  is_some-ema : (xs : List F) (p : ℕ) → (is_some (ema xs p) ≡ true) ↔ ((0 < p) × (p ≤ length xs))
  unfolding ema
  is_some-ema [] p = ground arith
  is_some-ema (x ∷ xs) p = ground arith

  is_some-sma : (xs : List F) (p : ℕ) → (is_some (sma xs p) ≡ true) ↔ ((0 < p) × (p ≤ length xs))
  unfolding sma
  is_some-sma xs p = ground arith

  is_some-bollinger :
      (xs : List F) (p : ℕ) → (is_some (bollinger xs p) ≡ true) ↔ ((1 < p) × (p ≤ length xs))
  unfolding bollinger
  is_some-bollinger xs p = ground arith

  length-returns_from :
      (x : F) (xs rs : List F) → returns_from x xs ≡ some rs → length rs ≡ length xs
  unfolding returns_from
  length-returns_from x [] rs e = ground arith
  length-returns_from x (y ∷ ys) rs e = elim (Option-cases (returns_from y ys)) [
    | inl none_left ↦ absurd (ground arith)
    | inr (rest, er) ↦ ground (arith, length-returns_from y ys rest er)
  ]

  is_some-volatility :
      (xs : List F) (v : Option F)
      → volatility_of xs ≡ some v
      → (is_some v ≡ true) ↔ (3 ≤ length xs)
  unfolding volatility_of realized_volatility
  is_some-volatility [] v e = ground arith
  is_some-volatility (x ∷ []) v e = ground arith
  is_some-volatility (x ∷ y ∷ xs) v e = elim (Option-cases (returns_from x (y ∷ xs))) [
    | inl divided ↦ absurd (ground arith)
    | inr (rs, er) ↦ ground (arith, length-returns_from x (y ∷ xs) rs er)
  ]

  -- Where the calculation raises nothing, the number of closes alone decides which of the
  -- indicators on closes there are: the relative strength with more closes than its period, the
  -- convergence from 35 on, the averages from their periods on, the bands from their period on, and
  -- the volatility from three closes on.
  compute_all-presence :
      (closes : List F) (highs lows volumes : Option (List F)) (rsi_period atr_period bb_period : ℕ)
      (ind : Indicators F)
      → compute_all closes highs lows volumes rsi_period atr_period bb_period ≡ some ind
      → ((is_some ind.rsi ≡ true) ↔ ((0 < rsi_period) × (rsi_period < length closes)))
        × ((is_some ind.macd ≡ true) ↔ (35 ≤ length closes))
        × ((is_some ind.ema_fast ≡ true) ↔ (12 ≤ length closes))
        × ((is_some ind.ema_slow ≡ true) ↔ (26 ≤ length closes))
        × ((is_some ind.sma ≡ true) ↔ (20 ≤ length closes))
        × ((is_some ind.bollinger ≡ true) ↔ ((1 < bb_period) × (bb_period ≤ length closes)))
        × ((is_some ind.volatility ≡ true) ↔ (3 ≤ length closes))
  unfolding compute_all
  compute_all-presence closes highs lows volumes rp ap' bp ind e =
      elim (Option-cases (volatility_of closes)) [
        | inl divided ↦ absurd (ground arith)
        | inr (v, ev) ↦ ground (
          arith,
          is_some-rsi closes rp,
          is_some-macd closes,
          is_some-ema closes 12,
          is_some-ema closes 26,
          is_some-sma closes 20,
          is_some-bollinger closes bp,
          is_some-volatility closes v ev,
        )
      ]
