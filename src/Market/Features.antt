-- ===== src/Market/Features.antt =====
-- trade_post/market/indicators.py: `compute_all`, the features of a snapshot.
pub mod Presence
use mathlib.Core.Option
use trade_post.Base.{
  ℕ, zero, suc, ◌+◌, ◌-◌, String, Bool, true, false, not, ◌&&◌, ◌||◌, Option, none, some, List, [],
  ◌∷◌, ◌++◌, map, ltb, leb, if◌then◌else◌, length, take, drop, any_of,
}
use trade_post.Domain.{Indicators, Macd, Bands}
use trade_post.Floats.{Floats, fmax}
use trade_post.Market.Indicators.{sma, ema, rsi, macd, atr, bollinger, vwap, realized_volatility}

module _ {F : Type 0} ⦃fl : Floats F⦄ where
  -- `closes[i] / closes[i - 1] - 1`; `none` is the `ZeroDivisionError`.
  unfoldable pub returns_from : F → List F → Option (List F)
  returns_from x [] = some []
  returns_from x (y ∷ ys) =
      let rest = returns_from y ys in
      if fl.feq x (fl.of_ℕ 0)
      then none
      else Option.map (λ rs. fl.fsub (fl.fdiv y x) (fl.of_ℕ 1) ∷ rs) rest

  unfoldable pub volatility_of : List F → Option (Option F)
  volatility_of [] = some none
  volatility_of (x ∷ []) = some none
  volatility_of (x ∷ y ∷ xs) = Option.map realized_volatility (returns_from x (y ∷ xs))

  abbrev rows3 : List F → List F → List F → List (F × F × F)
  rows3 (h ∷ hs) (l ∷ ls) (c ∷ cs) = (h, l, c) ∷ rows3 hs ls cs
  rows3 _ _ _ = []

  abbrev rows4 : List F → List F → List F → List F → List (F × F × F × F)
  rows4 (h ∷ hs) (l ∷ ls) (c ∷ cs) (v ∷ vs) = (h, l, c, v) ∷ rows4 hs ls cs vs
  rows4 _ _ _ _ = []

  abbrev is_as_long : List F → List F → Bool
  is_as_long xs ys = leb (length xs) (length ys) && leb (length ys) (length xs)

  -- The average true range, where highs and lows of the closes' length are given.
  unfoldable pub atr_of : List F → Option (List F) → Option (List F) → ℕ → Option F
  atr_of closes (some highs) (some lows) period =
      if is_as_long highs lows && is_as_long lows closes
      then atr (rows3 highs lows closes) period
      else none
  atr_of closes _ _ period = none

  unfoldable pub vwap_of : List F → Option (List F) → Option (List F) → Option (List F) → Option F
  vwap_of closes (some highs) (some lows) (some volumes) =
      if is_as_long highs lows && is_as_long lows closes && is_as_long volumes closes
      then vwap (rows4 highs lows closes volumes)
      else none
  vwap_of closes _ _ _ = none

  unfoldable pub compute_all :
      List F
      → Option (List F)
      → Option (List F)
      → Option (List F)
      → ℕ
      → ℕ
      → ℕ
      → Option (Indicators F)
  compute_all closes highs lows volumes rsi_period atr_period bb_period =
      Option.map
        (λ vol. record {
          rsi = rsi closes rsi_period;
          macd = macd closes;
          ema_fast = ema closes 12;
          ema_slow = ema closes 26;
          sma = sma closes 20;
          bollinger = bollinger closes bb_period;
          atr = atr_of closes highs lows atr_period;
          vwap = vwap_of closes highs lows volumes;
          volatility = vol;
        })
        (volatility_of closes)
