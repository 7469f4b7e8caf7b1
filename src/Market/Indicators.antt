-- ===== src/Market/Indicators.antt =====
-- trade_post/market/indicators.py: the indicators over series of floats. A list that the caller cuts
-- to the length of another is given as rows.
use trade_post.Base.{
  ℕ, ◌+◌, ◌-◌, Bool, ◌||◌, Option, none, some, List, [], ◌∷◌, map, ltb, leb, if◌then◌else◌, length,
  take, drop,
}
use trade_post.Domain.{Macd, Bands}
use trade_post.Floats.{Floats, fmax}

-- The last element, and one for an empty list.
abbrev pub last_or {ℓ} : {A : Type ℓ} → A → List A → A
last_or a [] = a
last_or a (x ∷ xs) = last_or x xs

module _ {F : Type 0} ⦃fl : Floats F⦄ where
  -- `values[-period:]` of a list that is long enough.
  abbrev last_n : ℕ → List F → List F
  last_n n xs = drop (length xs - n) xs

  abbrev is_short : ℕ → List F → Bool
  is_short period xs = leb period 0 || ltb (length xs) period

  unfoldable pub sma : List F → ℕ → Option F
  sma values period =
      if is_short period values
      then none
      else some (fl.fdiv (fl.fsum (last_n period values)) (fl.of_ℕ period))

  -- The weight of a period, `2.0 / (period + 1)`.
  abbrev weight : ℕ → F
  weight period = fl.fdiv (fl.of_ℕ 2) (fl.of_ℕ (period + 1))

  abbrev smoothed : F → F → F → F
  smoothed k e v = fl.fadd (fl.fmul v k) (fl.fmul e (fl.fsub (fl.of_ℕ 1) k))

  unfoldable pub ema_from : F → F → List F → F
  ema_from k e [] = e
  ema_from k e (v ∷ vs) = ema_from k (smoothed k e v) vs

  unfoldable pub ema : List F → ℕ → Option F
  ema [] period = none
  ema (v ∷ vs) period =
      if is_short period (v ∷ vs) then none else some (ema_from (weight period) v vs)

  -- The differences of neighbours.
  unfoldable pub changes_from : F → List F → List F
  changes_from x [] = []
  changes_from x (y ∷ ys) = fl.fsub y x ∷ changes_from y ys

  unfoldable pub changes : List F → List F
  unfolding changes_from
  changes [] = []
  changes (x ∷ xs) = changes_from x xs

  abbrev gains : List F → List F
  gains ds = map (λ d. fmax d (fl.of_ℕ 0)) ds

  abbrev losses : List F → List F
  losses ds = map (λ d. fmax (fl.fneg d) (fl.of_ℕ 0)) ds

  -- Wilder's average: the mean of the first `period`, then `(avg * (period - 1) + x) / period`.
  unfoldable pub wilder_from : ℕ → F → List F → F
  wilder_from period avg [] = avg
  wilder_from period avg (x ∷ xs) =
      wilder_from period (fl.fdiv (fl.fadd (fl.fmul avg (fl.of_ℕ (period - 1))) x) (fl.of_ℕ period))
        xs

  unfoldable pub wilder : ℕ → List F → F
  wilder period xs =
      wilder_from period (fl.fdiv (fl.fsum (take period xs)) (fl.of_ℕ period)) (drop period xs)

  unfoldable pub relative_strength : F → F → F
  relative_strength avg_gain avg_loss =
      if fl.feq avg_loss (fl.of_ℕ 0)
      then if fl.flt (fl.of_ℕ 0) avg_gain then fl.of_ℕ 100 else fl.of_ℕ 50
      else fl.fsub (fl.of_ℕ 100)
          (fl.fdiv (fl.of_ℕ 100) (fl.fadd (fl.of_ℕ 1) (fl.fdiv avg_gain avg_loss)))

  unfoldable pub rsi : List F → ℕ → Option F
  rsi values period =
      if leb period 0 || leb (length values) period
      then none
      else if ltb (length (changes values)) period
      then none
      else some (
          relative_strength (wilder period (gains (changes values)))
            (wilder period (losses (changes values))))

  -- `macd_line`, from the two averages so far.
  unfoldable pub macd_line_from : F → F → F → F → List F → List F
  macd_line_from k_fast k_slow fast_e slow_e [] = []
  macd_line_from k_fast k_slow fast_e slow_e (v ∷ vs) =
      let fast_e' = smoothed k_fast fast_e v in
      let slow_e' = smoothed k_slow slow_e v in
      fl.fsub fast_e' slow_e' ∷ macd_line_from k_fast k_slow fast_e' slow_e' vs

  unfoldable pub macd_of : F → List F → Option (Macd F)
  macd_of k [] = none
  macd_of k (m ∷ ms) =
      let sig = ema_from k m ms in
      let last = last_or m ms in
      some (record { macd_line = last; signal_line = sig; histogram = fl.fsub last sig })

  -- With the periods 12, 26 and 9, which no caller changes.
  unfoldable pub macd : List F → Option (Macd F)
  macd [] = none
  macd (v ∷ vs) =
      if ltb (length (v ∷ vs)) 35
      then none
      else macd_of (weight 9) (macd_line_from (weight 12) (weight 26) v v vs)

  -- `max(h - l, abs(h - c), abs(l - c))`, with the close before.
  abbrev true_range : F → F → F → F
  true_range h l c = fmax (fmax (fl.fsub h l) (fl.fabs (fl.fsub h c))) (fl.fabs (fl.fsub l c))

  -- A row is a high, a low and a close.
  unfoldable pub true_ranges : F → List (F × F × F) → List F
  true_ranges before [] = []
  true_ranges before ((h, l, c) ∷ rows) = true_range h l before ∷ true_ranges c rows

  unfoldable pub atr : List (F × F × F) → ℕ → Option F
  atr [] period = none
  atr ((h, l, c) ∷ rows) period =
      if leb period 0 || ltb (length ((h, l, c) ∷ rows)) (period + 1)
      then none
      else if ltb (length (true_ranges c rows)) period
      then none
      else some (wilder period (true_ranges c rows))

  abbrev mean : List F → F
  mean xs = fl.fdiv (fl.fsum xs) (fl.of_ℕ (length xs))

  abbrev squares : F → List F → F
  squares m xs = fl.fsum (map (λ x. fl.fsquare (fl.fsub x m)) xs)

  -- With two standard deviations, which no caller changes.
  unfoldable pub bollinger : List F → ℕ → Option (Bands F)
  bollinger values period =
      let series = last_n period values in
      let m = fl.fdiv (fl.fsum series) (fl.of_ℕ period) in
      let std = fl.fsqrt (fl.fdiv (squares m series) (fl.of_ℕ period)) in
      if leb period 1 || ltb (length values) period
      then none
      else some (record {
        middle = m;
        upper = fl.fadd m (fl.fmul (fl.of_ℕ 2) std);
        lower = fl.fsub m (fl.fmul (fl.of_ℕ 2) std);
      })

  -- A row is a high, a low, a close and a volume.
  abbrev typical : F × F × F × F → F
  typical (h, l, c, v) = fl.fdiv (fl.fadd (fl.fadd h l) c) (fl.of_ℕ 3)

  abbrev volume : F × F × F × F → F
  volume (h, l, c, v) = v

  unfoldable pub vwap : List (F × F × F × F) → Option F
  vwap [] = none
  vwap (r ∷ rows) =
      let total = fl.fsum (map volume (r ∷ rows)) in
      if fl.feq total (fl.of_ℕ 0)
      then none
      else some (fl.fdiv (fl.fsum (map (λ x. fl.fmul (typical x) (volume x)) (r ∷ rows))) total)

  -- With an annualisation of `365.0 * 24.0`, which no caller changes.
  unfoldable pub realized_volatility : List F → Option F
  realized_volatility returns =
      let n = length returns in
      if ltb n 2
      then none
      else some (
          fl.fmul (fl.fsqrt (fl.fdiv (squares (mean returns) returns) (fl.of_ℕ (n - 1))))
            (fl.fsqrt (fl.fmul (fl.of_ℕ 365) (fl.of_ℕ 24))))
