-- ===== src/Market/Service.antt =====
-- trade_post/market/service.py: the snapshots of the market and their cache. The exchange's answer
-- is an argument.
pub mod Cache
pub mod Connection
use Prim.Native.String.{◌++◌}
use trade_post.Base.{
  ℕ, ◌+◌, ◌*◌, String, Bool, true, false, not, ◌&&◌, Option, none, some, List, map, ltb,
  if◌then◌else◌,
}
use trade_post.Config.{Settings}
use trade_post.Decimal.{Decimal, nought}
use trade_post.Dict
use trade_post.Dict.{Dict}
use trade_post.Domain.{MarketSnapshot, Indicators}
use trade_post.Floats.{Floats, is_true_float}
use trade_post.Market.Features.{compute_all}

-- What `get_snapshot` does: a snapshot, an `ExchangeError` with its text, or another exception.
pub data Fetched (F : Type 0) : Type 0 where
  snapshot : MarketSnapshot F → Fetched F
  exchange_error : String → Fetched F
  other_error : Fetched F

pub record Ticker (F : Type 0) : Type 0 where
  pub bid : Option F
  pub ask : Option F
  pub last : Option F
  pub quote_volume : Option F

pub record Candle (F : Type 0) : Type 0 where
  pub high : F
  pub low : F
  pub close : F
  pub volume : F

-- What the exchange answers to the ticker and the candles: both, or an exception.
pub data Answered (F : Type 0) : Type 0 where
  answered : Ticker F → List (Candle F) → Answered F
  failed : Answered F

pub record MarketData (F : Type 0) : Type 0 where
  pub settings : Settings F
  pub connected : Bool
  pub cache : Dict (ℕ × MarketSnapshot F)  -- with the monotonic time of the entry

module _ {F : Type 0} ⦃fl : Floats F⦄ where
  abbrev pub is_true : Option F → Bool
  is_true none = false
  is_true (some x) = is_true_float x

  -- `Decimal(str(x)) if x else None`
  abbrev pub true_decimal : Option F → Option Decimal
  true_decimal none = none
  true_decimal (some x) = if is_true_float x then some (fl.to_decimal x) else none

  unfoldable pub spread_of : Option F → Option F → Option F → Option Decimal
  spread_of (some bid) (some ask) (some last) =
      if is_true_float bid && is_true_float ask && is_true_float last && fl.flt (fl.of_ℕ 0) last
      then some (fl.to_decimal (fl.fmul (fl.fdiv (fl.fsub ask bid) last) (fl.of_ℕ 10_000)))
      else none
  spread_of _ _ _ = none

  abbrev pub price_of : Option F → Decimal
  price_of none = nought
  price_of (some last) = fl.to_decimal last

  abbrev pub volume_of : Option F → Decimal
  volume_of none = nought
  volume_of (some v) = if is_true_float v then fl.to_decimal v else nought

  abbrev pub snapshot_of : String → ℕ → Ticker F → Indicators F → MarketSnapshot F
  snapshot_of symbol stamped t feats = record {
    symbol = symbol;
    timestamp = stamped;
    last_price = price_of t.last;
    bid = true_decimal t.bid;
    ask = true_decimal t.ask;
    spread_bps = spread_of t.bid t.ask t.last;
    volume_24h = some (volume_of t.quote_volume);
    indicators = feats;
    source = "ccxt";
  }

  abbrev pub features : Settings F → List (Candle F) → Option (Indicators F)
  features s candles =
      compute_all (map (λ c. c.close) candles) (some (map (λ c. c.high) candles))
        (some (map (λ c. c.low) candles)) (some (map (λ c. c.volume) candles)) 14 s.atr_period 20

  -- Whether an entry of time `t` is younger than `max_stale_data_sec` at `now`.
  abbrev pub is_young : Settings F → ℕ → ℕ → Bool
  is_young s now t = ltb now (t + s.max_stale_data_sec * 1_000_000)

  -- The request to the exchange; `stored` and `stamped` are the clocks after it.
  unfoldable pub fetch_snapshot :
      String → (stored stamped : ℕ) → Answered F → MarketData F → Fetched F × MarketData F
  fetch_snapshot symbol stored stamped failed m = (exchange_error ("Failed to fetch " ++ symbol), m)
  fetch_snapshot symbol stored stamped (answered t candles) m = elim (features m.settings candles) [
    | none ↦ (other_error, m)
    | some feats ↦
        let snap = snapshot_of symbol stamped t feats in
        (snapshot snap, record m { cache = Dict.put symbol (stored, snap) m.cache })
  ]

  -- `get_snapshot` past the cache.
  unfoldable pub fetch_connected :
      String → (stored stamped : ℕ) → Answered F → MarketData F → Fetched F × MarketData F
  fetch_connected symbol stored stamped answer m =
      if m.connected
      then fetch_snapshot symbol stored stamped answer m
      else (exchange_error "Market service not connected", m)

  -- The entry of the cache that serves a request.
  unfoldable pub cached : Bool → String → ℕ → MarketData F → Option (MarketSnapshot F)
  cached use_cache symbol now m = elim (Dict.get symbol m.cache) [
    | none ↦ none
    | some (t, snap) ↦ if use_cache && is_young m.settings now t then some snap else none
  ]

  unfoldable pub get_snapshot :
      Bool
      → String
      → (now stored stamped : ℕ) → Answered F
      → MarketData F
      → Fetched F × MarketData F
  get_snapshot use_cache symbol now stored stamped answer m = elim (cached use_cache symbol now m) [
    | some snap ↦ (snapshot snap, m)
    | none ↦ fetch_connected symbol stored stamped answer m
  ]

  unfoldable pub is_stale : String → ℕ → MarketData F → Bool
  is_stale symbol now m = elim (Dict.get symbol m.cache) [
    | none ↦ true
    | some (t, _) ↦ ltb (t + m.settings.max_stale_data_sec * 1_000_000) now
  ]
