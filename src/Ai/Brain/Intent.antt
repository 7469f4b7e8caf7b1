-- ===== src/Ai/Brain/Intent.antt =====
-- trade_post/ai/brain.py: `to_intent`, with `idempotency_key_for` of trade_post/domain/models.py.
use Prim.Native.String.{◌++◌}
use trade_post.Base.{ℕ, ◌/◌, String, Option, none, some, prefix, if◌then◌else◌}
use trade_post.Base.Int.{pos}
use trade_post.Ai.Brain.{AiDecision}
use trade_post.Decimal.{Decimal, nought, less}
use trade_post.Domain.{
  SignalSide, long, OrderSide, buy, sell, OrderType, market, limit, OrderIntent, gtc,
}
use trade_post.Floats.{Floats}

-- `side.value` and `type.value`
abbrev pub order_side_value : OrderSide → String
order_side_value buy = "buy"
order_side_value sell = "sell"

abbrev pub order_type_value : OrderType → String
order_type_value market = "market"
order_type_value limit = "limit"

-- `idempotency_key_for`, with the hash of a text and the text of a number as arguments. `now` is not before the epoch.
unfoldable pub idempotency_key_for :
    (String → String)
    → (Decimal → String)
    → String
    → OrderSide
    → OrderType
    → Decimal
    → String
    → ℕ
    → ℕ
    → String
idempotency_key_for sha256 show symbol side type quantity strategy_id ts_window_sec now = sha256 (
    symbol
    ++ "|"
    ++ order_side_value side
    ++ "|"
    ++ order_type_value type
    ++ "|"
    ++ show quantity
    ++ "|"
    ++ strategy_id
    ++ "|"
    ++ show (record { coef = pos (now / 1_000_000 / ts_window_sec); scale = 0 }))

abbrev pub order_side_of : SignalSide → OrderSide
order_side_of long = buy
order_side_of _ = sell

module _ {F : Type 0} ⦃fl : Floats F⦄ where
  -- The id and the times are the defaults of the model, which refuses a quantity of nought and a
  -- conviction out of range.
  unfoldable pub to_intent :
      (String → String) → String → ℕ → ℕ → AiDecision F → Decimal → Option OrderIntent
  to_intent sha256 id keyed created d quantity =
      let side = order_side_of d.signal in
      if less nought quantity
      then some (record {
        id = id;
        symbol = d.symbol;
        side = side;
        type = market;
        quantity = quantity;
        limit_price = none;
        stop_loss_pct = none;
        take_profit_pct = none;
        time_in_force = gtc;
        idempotency_key =
            idempotency_key_for sha256 fl.show_decimal d.symbol side market quantity (prefix 8 d.id)
              60 keyed;
        strategy_id = d.id;
        signal = d.signal;
        conviction = d.conviction;
        rationale = d.rationale;
        created_at = created;
        client_request_id = none;
      })
      else none
