-- ===== src/Persistence/Orders.antt =====
-- trade_post/persistence/repository.py: the statements on `orders` and `fills`. `none` is the
-- database's refusal of a duplicate key. Rows of one `ORDER BY` value keep their order.
pub mod Laws
use trade_post.Base.{
  ℕ, String, Bool, true, false, not, ◌&&◌, ◌||◌, Option, none, some, List, [], ◌∷◌, ◌++◌, map, ltb,
  str_eq, if◌then◌else◌, take, keep_if, any_of, find_first, is_some,
}
use trade_post.Decimal.{Decimal, is_nonzero}
use trade_post.Domain.{
  Order, Fill, OrderStatus, pending, submitted, partially_filled, is_terminal_status,
}
use trade_post.Persistence.{Database}

-- `str(x) if x else None`: an amount of 0 is stored as NULL.
unfoldable pub stored_amount : Option Decimal → Option Decimal
stored_amount none = none
stored_amount (some d) = if is_nonzero d then some d else none

-- `_order_dict`, and `_order_from_row` behind it: the row of an order, read as an order.
unfoldable pub order_row : Order → Order
unfolding stored_amount
order_row o = record o {
  average_price = stored_amount o.average_price;
  limit_price = stored_amount o.limit_price;
  stop_loss_pct = stored_amount o.stop_loss_pct;
  take_profit_pct = stored_amount o.take_profit_pct;
}

abbrev pub has_id : String → Order → Bool
has_id i o = str_eq o.id i

abbrev pub has_key : String → Order → Bool
has_key k o = str_eq o.idempotency_key k

-- `id` is the primary key, and `idempotency_key` is unique.
unfoldable pub insert_order : Order → Database → Option Database
insert_order o db =
    if any_of (has_id o.id) db.orders || any_of (has_key o.idempotency_key) db.orders
    then none
    else some (record db { orders = db.orders ++ (order_row o ∷ []) })

-- The optional arguments of `update_order_status`.
pub record Changes : Type 0 where
  pub exchange_order_id : Option String
  pub average_price : Option Decimal
  pub filled_quantity : Option Decimal
  pub last_error : Option String

abbrev pub no_changes : Changes
no_changes = record {
  exchange_order_id = none;
  average_price = none;
  filled_quantity = none;
  last_error = none;
}

-- The new value if there is one.
abbrev pub set_some {ℓ} : {A : Type ℓ} → Option A → Option A → Option A
set_some none old = old
set_some (some a) _ = some a

abbrev pub set_value {ℓ} : {A : Type ℓ} → Option A → A → A
set_value none old = old
set_value (some a) _ = a

unfoldable pub updated_order : ℕ → OrderStatus → Changes → Order → Order
updated_order now status c o = record o {
  status = status;
  exchange_order_id = set_some c.exchange_order_id o.exchange_order_id;
  average_price = set_some c.average_price o.average_price;
  filled_quantity = set_value c.filled_quantity o.filled_quantity;
  last_error = set_some c.last_error o.last_error;
  completed_at = if is_terminal_status status then some now else o.completed_at;
}

-- `UPDATE orders SET … WHERE id = :id`
unfoldable pub update_order_status : ℕ → String → OrderStatus → Changes → Database → Database
unfolding updated_order
update_order_status now i status c db = record db {
  orders = map (λ o. if has_id i o then updated_order now status c o else o) db.orders;
}

unfoldable pub get_order_by_id : String → Database → Option Order
get_order_by_id i db = find_first (has_id i) db.orders

unfoldable pub get_order_by_idempotency : String → Database → Option Order
get_order_by_idempotency k db = find_first (has_key k) db.orders

-- `ORDER BY created_at DESC`
unfoldable pub insert_desc : Order → List Order → List Order
insert_desc o [] = o ∷ []
insert_desc o (x ∷ xs) =
    let rest = insert_desc o xs in if ltb x.created_at o.created_at then o ∷ x ∷ xs else x ∷ rest

unfoldable pub newest_first : List Order → List Order
unfolding insert_desc
newest_first [] = []
newest_first (o ∷ os) = insert_desc o (newest_first os)

abbrev pub is_open_status : OrderStatus → Bool
is_open_status pending = true
is_open_status submitted = true
is_open_status partially_filled = true
is_open_status _ = false

unfoldable pub list_open_orders : Database → List Order
unfolding newest_first
list_open_orders db = newest_first (keep_if (λ o. is_open_status o.status) db.orders)

unfoldable pub list_recent_orders : ℕ → Database → List Order
unfolding newest_first
list_recent_orders limit db = take limit (newest_first db.orders)

unfoldable pub insert_fill : Fill → Database → Option Database
insert_fill f db =
    if any_of (λ g. str_eq g.id f.id) db.fills
    then none
    else some (record db { fills = db.fills ++ (f ∷ []) })
