-- ===== src/Market/Service/Connection.antt =====
-- trade_post/market/service.py: `connect`, `disconnect` and `get_ohlcv`. What the client answers is an
-- argument: whether it loads its markets, and the candles.
use trade_post.Base.{Bool, true, false, Option, none, some, List, if◌then◌else◌}
use trade_post.Market.Service.{MarketData}

-- A list of candles, or an `ExchangeError`.
pub data Candles (A : Type 0) : Type 0 where
  candles : List A → Candles A
  not_connected : Candles A
  failed_to_fetch : Candles A

module _ {F : Type 0} where
  -- Whether `connect` returns; where the markets do not load it raises, and the client stays.
  unfoldable pub connect : (loads : Bool) → MarketData F → Bool × MarketData F
  connect loads m = if m.connected then (true, m) else (loads, record m { connected = true })

  -- The client is dropped also where its closing raises.
  unfoldable pub disconnect : (closes : Bool) → MarketData F → Bool × MarketData F
  disconnect closes m = if m.connected then (closes, record m { connected = false }) else (true, m)

  unfoldable pub get_ohlcv : {A : Type 0} → Option (List A) → MarketData F → Candles A
  get_ohlcv answer m =
      let fetched : Candles _ = elim answer [ none ↦ failed_to_fetch | some cs ↦ candles cs ] in
      if m.connected then fetched else not_connected
