-- ===== src/Persistence/Texts.antt =====
-- trade_post/persistence/repository.py: the row of an order as the texts that stand in it,
-- `_order_dict` and `_order_from_row`. `str` and `Decimal`, `isoformat` and `fromisoformat` are an
-- argument; none stands for the exception that a reading raises, and for NULL.
mod Tests
use trade_post.Base.{
  ℕ, ◌≡◌, ◌≢◌, refl, String, Bool, true, false, Option, none, some, List, [], ◌∷◌, arith,
  if◌then◌else◌,
}
use trade_post.Config.{is_true_text}
use trade_post.Decimal.{Decimal, is_nonzero}
use trade_post.Domain.{Order}
use trade_post.Domain.Texts.{
  Enumeration, of_value, order_sides, signal_sides, order_types, order_statuses,
  order_sides-IsListed, signal_sides-IsListed, order_types-IsListed, order_statuses-IsListed,
}
use trade_post.Persistence.Orders.{order_row, stored_amount}

pub record OrderTexts : Type 0 where
  pub id : String
  pub intent_id : String
  pub exchange_order_id : Option String
  pub symbol : String
  pub side : String
  pub type : String
  pub quantity : String
  pub filled_quantity : String
  pub average_price : Option String
  pub status : String
  pub limit_price : Option String
  pub stop_loss_pct : Option String
  pub take_profit_pct : Option String
  pub idempotency_key : String
  pub strategy_id : String
  pub signal : String
  pub conviction : ℕ
  pub rationale : String
  pub created_at : String
  pub submitted_at : Option String
  pub completed_at : Option String
  pub last_error : Option String
  pub trace_id : Option String

pub record Codec : Type 0 where
  pub show_decimal : Decimal → String
  pub read_decimal : String → Option Decimal
  pub show_time : ℕ → String
  pub read_time : String → Option ℕ

infixl 5 ◌>>=◌
abbrev pub ◌>>=◌ : {A B : Type 0} → Option A → (A → Option B) → Option B
none >>= f = none
some a >>= f = f a

module _ (k : Codec) where
  -- `str(x) if x else None`
  abbrev pub amount_text : Option Decimal → Option String
  amount_text none = none
  amount_text (some d) = if is_nonzero d then some (k.show_decimal d) else none

  -- `x.isoformat() if x else None`; a time is never false.
  abbrev pub time_text : Option ℕ → Option String
  time_text none = none
  time_text (some t) = some (k.show_time t)

  unfoldable pub order_dict : Order → OrderTexts
  order_dict o = record {
    id = o.id;
    intent_id = o.intent_id;
    exchange_order_id = o.exchange_order_id;
    symbol = o.symbol;
    side = order_sides.value o.side;
    type = order_types.value o.type;
    quantity = k.show_decimal o.quantity;
    filled_quantity = k.show_decimal o.filled_quantity;
    average_price = amount_text o.average_price;
    status = order_statuses.value o.status;
    limit_price = amount_text o.limit_price;
    stop_loss_pct = amount_text o.stop_loss_pct;
    take_profit_pct = amount_text o.take_profit_pct;
    idempotency_key = o.idempotency_key;
    strategy_id = o.strategy_id;
    signal = signal_sides.value o.signal;
    conviction = o.conviction;
    rationale = o.rationale;
    created_at = k.show_time o.created_at;
    submitted_at = time_text o.submitted_at;
    completed_at = time_text o.completed_at;
    last_error = o.last_error;
    trace_id = o.trace_id;
  }

  -- `read(x) if x else None`, where the reading may raise.
  abbrev pub read_some : {A : Type 0} → (String → Option A) → Option String → Option (Option A)
  read_some read none = some none
  read_some read (some t) =
      let value : Option (Option _) = elim (read t) [ none ↦ none | some a ↦ some (some a) ] in
      if is_true_text t then value else some none

  unfoldable pub order_from_row : OrderTexts → Option Order
  order_from_row r = do
    side ← of_value order_sides r.side
    type ← of_value order_types r.type
    quantity ← k.read_decimal r.quantity
    filled_quantity ← k.read_decimal r.filled_quantity
    average_price ← read_some k.read_decimal r.average_price
    status ← of_value order_statuses r.status
    limit_price ← read_some k.read_decimal r.limit_price
    stop_loss_pct ← read_some k.read_decimal r.stop_loss_pct
    take_profit_pct ← read_some k.read_decimal r.take_profit_pct
    signal ← of_value signal_sides r.signal
    created_at ← k.read_time r.created_at
    submitted_at ← read_some k.read_time r.submitted_at
    completed_at ← read_some k.read_time r.completed_at
    some (record {
      id = r.id;
      intent_id = r.intent_id;
      exchange_order_id = r.exchange_order_id;
      symbol = r.symbol;
      side = side;
      type = type;
      quantity = quantity;
      filled_quantity = filled_quantity;
      average_price = average_price;
      status = status;
      limit_price = limit_price;
      stop_loss_pct = stop_loss_pct;
      take_profit_pct = take_profit_pct;
      idempotency_key = r.idempotency_key;
      strategy_id = r.strategy_id;
      signal = signal;
      conviction = r.conviction;
      rationale = r.rationale;
      created_at = created_at;
      submitted_at = submitted_at;
      completed_at = completed_at;
      last_error = r.last_error;
      trace_id = r.trace_id;
    })

  -- What Python documents of its decimals and times: each is read back from its text, which is not
  -- empty.
  pub record IsRead : Type 0 where
    pub decimal_read : (d : Decimal) → k.read_decimal (k.show_decimal d) ≡ some d
    pub time_read : (t : ℕ) → k.read_time (k.show_time t) ≡ some t
    pub decimal_text : (d : Decimal) → is_true_text (k.show_decimal d) ≡ true
    pub time_text_full : (t : ℕ) → is_true_text (k.show_time t) ≡ true

  read_some-amount_text :
      (d : Option Decimal)
      → IsRead
      → read_some k.read_decimal (amount_text d) ≡ some (stored_amount d)
  unfolding stored_amount
  read_some-amount_text none i = refl
  read_some-amount_text (some d) i = ground (arith, i.decimal_read d, i.decimal_text d)

  read_some-time_text : (t : Option ℕ) → IsRead → read_some k.read_time (time_text t) ≡ some t
  read_some-time_text none i = refl
  read_some-time_text (some t) i = rw (i.time_read t, i.time_text_full t) refl

  -- Where the decimals and the times are read back from their texts, the row that is stored for an
  -- order is read as that order, but for each of the four optional amounts that is 0: it is read as
  -- missing.
  pub order_from_row-order_dict :
      (o : Order) → IsRead → order_from_row (order_dict o) ≡ some (order_row o)
  unfolding order_from_row order_dict order_row
  order_from_row-order_dict o i =
      rw
        (
          order_sides-IsListed o.side,
          order_types-IsListed o.type,
          i.decimal_read o.quantity,
          i.decimal_read o.filled_quantity,
          read_some-amount_text o.average_price i,
          order_statuses-IsListed o.status,
          read_some-amount_text o.limit_price i,
          read_some-amount_text o.stop_loss_pct i,
          read_some-amount_text o.take_profit_pct i,
          signal_sides-IsListed o.signal,
          i.time_read o.created_at,
          read_some-time_text o.submitted_at i,
          read_some-time_text o.completed_at i,
        )
        refl
