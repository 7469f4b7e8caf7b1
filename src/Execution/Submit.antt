-- ===== src/Execution/Submit.antt =====
-- trade_post/execution/engine.py: `ExecutionEngine.submit`.
pub mod Idempotency
pub mod Outcomes
pub mod Unbooked
use Prim.Native.String.{◌++◌}
use trade_post.Base.{
  ℕ, String, Bool, true, false, not, ◌&&◌, Option, none, some, if◌then◌else◌, or_else,
}
use trade_post.Config.{Settings}
use trade_post.Decimal.{Decimal, nought, less, at_most, sub, is_nonzero}
use trade_post.Domain.{
  Order, OrderIntent, OrderSide, buy, sell, OrderType, market, limit, OrderStatus, pending,
  submitted, filled, rejected, Fill, MarketSnapshot,
}
use trade_post.Execution.{Execution, is_simulated, apply_paper_fill}
use trade_post.Execution.Pricing.{estimate_fill_price, relative_slip, calculate_slippage_pct}
use trade_post.Floats.{Floats, is_true_float}
use trade_post.Market.Service.{Fetched, snapshot, exchange_error, other_error}
use trade_post.Money.{usdt}
use trade_post.Persistence.{Database}
use trade_post.Persistence.Orders.{
  insert_order, update_order_status, get_order_by_idempotency, insert_fill, Changes, no_changes,
}
use trade_post.Risk.{Engine, record_failure, record_success}

-- What the exchange does with an order: its id, or the text of the exception.
pub data Placed : Type 0 where
  accepted : String → Placed
  refused : String → Placed

pub data Raised : Type 0 where
  integrity_error market_fault zero_division invalid_fill : Raised

pub data Outcome : Type 0 where
  returned : Option Order → Outcome
  raised : Raised → Outcome

-- The readings of the clock, the fresh ids and the answers of the outside, in one call.
pub record Env (F : Type 0) : Type 0 where
  pub created : ℕ
  pub submitted_at : ℕ
  pub completed : ℕ
  pub stamped : ℕ
  pub noted : ℕ
  pub paper_id : String
  pub fill_id : String
  pub filled_at : ℕ
  pub trace_id : Option String
  pub fetched : Fetched F
  pub placed : Placed

abbrev pub new_order : ℕ → Option String → OrderIntent → Order
new_order created trace i = record {
  id = i.id;
  intent_id = i.id;
  exchange_order_id = none;
  symbol = i.symbol;
  side = i.side;
  type = i.type;
  quantity = i.quantity;
  filled_quantity = nought;
  average_price = none;
  status = pending;
  limit_price = i.limit_price;
  stop_loss_pct = i.stop_loss_pct;
  take_profit_pct = i.take_profit_pct;
  idempotency_key = i.idempotency_key;
  strategy_id = i.strategy_id;
  signal = i.signal;
  conviction = i.conviction;
  rationale = i.rationale;
  created_at = created;
  submitted_at = none;
  completed_at = none;
  last_error = none;
  trace_id = trace;
}

abbrev pub filled_order : ℕ → String → Decimal → Order → Order
filled_order completed ex_id price o = record o {
  exchange_order_id = some ex_id;
  average_price = some price;
  filled_quantity = o.quantity;
  status = filled;
  completed_at = some completed;
}

abbrev pub filled_changes : String → Decimal → Order → Changes
filled_changes ex_id price o = record {
  exchange_order_id = some ex_id;
  average_price = some price;
  filled_quantity = some o.quantity;
  last_error = none;
}

module _ {F : Type 0} ⦃fl : Floats F⦄ where
  abbrev pub on_db : (Database → Database) → Execution F → Execution F
  on_db f x = record x { risk = record x.risk { db = f x.risk.db } }

  abbrev pub fill_of : Env F → String → Decimal → Order → Fill
  fill_of env ex_id price o = record {
    id = env.fill_id;
    order_id = o.id;
    exchange_order_id = ex_id;
    symbol = o.symbol;
    side = o.side;
    quantity = o.quantity;
    price = price;
    fee = usdt nought;
    liquidity = "taker";
    timestamp = env.filled_at;
  }

  module _ (up : ℕ → Bool) where
    -- A rejected order is marked, counted as a failure, and `None` is returned.
    unfoldable pub give_up : Env F → String → Order → Execution F → Outcome × Execution F
    give_up env why o x =
        let x' =
          on_db
            (update_order_status env.stamped o.id rejected
              (record no_changes { last_error = some why }))
            x in
        (returned none, record x' { risk = record_failure up env.noted x'.risk })

    -- From the `Fill` on.
    unfoldable pub settle : Env F → String → Decimal → Order → Execution F → Outcome × Execution F
    settle env ex_id price o x =
        if not (less nought o.quantity && less nought price)
        then (raised invalid_fill, x)
        else elim (insert_fill (fill_of env ex_id price o) x.risk.db) [
          | none ↦ (raised integrity_error, x)
          | some db ↦
              let x' =
                on_db (update_order_status env.stamped o.id filled (filled_changes ex_id price o))
                  (on_db (λ _. db) x) in
              (
                returned (some (filled_order env.completed ex_id price o)),
                record x' { risk = record_success up env.noted x'.risk },
              )
        ]

    unfoldable pub place_live :
        Env F → Decimal → Order → Execution F → Placed → Outcome × Execution F
    place_live env price o x (accepted ex_id) = settle env ex_id price o x
    place_live env price o x (refused why) = give_up env why o x

    -- The fill in the paper account, or at the exchange.
    unfoldable pub place : Env F → Decimal → Order → Execution F → Outcome × Execution F
    unfolding place_live
    place env price o x =
        if is_simulated x.risk.settings
        then settle env env.paper_id price o (record x {
          paper = apply_paper_fill (filled_order env.completed env.paper_id price o) x.paper;
        })
        else place_live env price o x env.placed

    unfoldable pub price_and_place :
        Env F → OrderIntent → MarketSnapshot F → Order → Execution F → Outcome × Execution F
    price_and_place env i snap o x =
        let price = estimate_fill_price i.type i snap in
        let last = snap.last_price in
        if not (is_true_float (fl.of_decimal last))
        then (raised zero_division, x)
        else if fl.flt (fl.ratio 5 100) (fl.fabs (relative_slip price last))  -- more than 5%
        then give_up env
            ("Slippage violation: " ++ fl.percent 2 (calculate_slippage_pct last i.side price)) o x
        else place env price o x

    -- From the answer of the market data service on.
    unfoldable pub submit_new :
        Env F → OrderIntent → Order → Execution F → Fetched F → Outcome × Execution F
    submit_new env i o x (exchange_error why) = give_up env why o x
    submit_new env i o x other_error = (raised market_fault, x)
    submit_new env i o x (snapshot snap) = price_and_place env i snap o x

    unfoldable pub submit : Env F → OrderIntent → Execution F → Outcome × Execution F
    submit env i x =
        let o = new_order env.created env.trace_id i in
        elim (get_order_by_idempotency i.idempotency_key x.risk.db) [
          | some existing ↦ (returned (some existing), x)
          | none ↦ elim (insert_order o x.risk.db) [
            | none ↦ (raised integrity_error, x)
            | some db ↦
                submit_new env i
                  (record o { status = submitted; submitted_at = some env.submitted_at })
                  (on_db (update_order_status env.stamped o.id submitted no_changes)
                    (on_db (λ _. db) x))
                  env.fetched
          ]
        ]
